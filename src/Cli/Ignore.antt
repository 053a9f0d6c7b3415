-- ===== src/Cli/Ignore.antt =====
-- packages/cli/internal/archive/ignore.go: what ignore rules match. The glob matcher (doublestar), path.Base and
-- the functions of Go's strings package are parameters.
pub mod Last
use text.Mathlib.Text.{◌==◌ as same}
use latexmk.Prelude.{
  String, Bool, true, false, not, ◌&&◌, ◌||◌, Option, none, some, List, [], ◌∷◌, ◌++◌,
  if◌then◌else◌,
}

pub record IgnoreRule : Type 0 where
  pub line : String
  pub pattern : String
  pub negate : Bool
  pub directory : Bool
  pub anchored : Bool

pub record IgnoreMatcher : Type 0 where
  pub rules : List IgnoreRule
  pub base : String

-- strings.HasSuffix, TrimSuffix and CutPrefix (of the base and a slash); path.Base;
-- doublestar.MatchUnvalidated.
pub record Library : Type 0 where
  pub has_suffix : String → String → Bool
  pub trim_suffix : String → String → String
  pub cut_base : String → String → Option String
  pub last_element : String → String
  pub glob : String → String → Bool

abbrev pub candidate : Library → String → IgnoreRule → String
candidate lib name rule = if rule.anchored then name else lib.last_element name

-- Whether a rule is about a name, which is that of a directory or not.
unfoldable pub applies : Library → Bool → String → IgnoreRule → Bool
applies lib directory name rule =
    if rule.directory && not directory
    then false
    else if lib.has_suffix rule.pattern "/**"
        && same (candidate lib name rule) (lib.trim_suffix rule.pattern "/**")
    then false
    else lib.glob rule.pattern (candidate lib name rule)

-- What the loop has: whether the path is matched, and by which rule.
abbrev pub Match : Type 0
Match = Bool × Option IgnoreRule

abbrev pub follow : Bool → IgnoreRule → Match → Match
follow true rule m = (not rule.negate, some rule)
follow false rule m = m

unfoldable pub match_rules : Library → Bool → String → List IgnoreRule → Match → Match
match_rules lib directory name [] m = m
match_rules lib directory name (rule ∷ rules) m =
    match_rules lib directory name rules (follow (applies lib directory name rule) rule m)

abbrev pub inside : Library → IgnoreMatcher → String → Option String
inside lib m value = if same m.base "" then some value else lib.cut_base m.base value

abbrev pub match_inside : Library → IgnoreMatcher → Option String → Match
match_inside lib m none = (false, none)
match_inside lib m (some value) =
    match_rules lib (lib.has_suffix value "/") (lib.trim_suffix value "/") m.rules (false, none)

-- MatchesPathHow
unfoldable pub matches_path_how : Library → IgnoreMatcher → String → Match
matches_path_how lib m value = match_inside lib m (inside lib m value)

-- MatchesPath
unfoldable pub matches_path : Library → IgnoreMatcher → String → Bool
matches_path lib m value = (matches_path_how lib m value).0
