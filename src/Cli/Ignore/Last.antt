-- ===== src/Cli/Ignore/Last.antt =====
-- The last rule that is about a path decides.
use latexmk.Prelude.{
  ◌≡◌, refl, ◌∙◌, String, Bool, true, false, not, Option, none, some, List, [], ◌∷◌, if◌then◌else◌,
}
use latexmk.Cli.Ignore.{
  IgnoreRule, IgnoreMatcher, Library, applies, Match, follow, match_rules, inside, match_inside,
  matches_path_how,
}

-- The last rule of a list that passes a test.
abbrev or_first : Bool → IgnoreRule → Option IgnoreRule → Option IgnoreRule
or_first here rule (some r) = some r
or_first here rule none = if here then some rule else none

unfoldable pub last_rule : (IgnoreRule → Bool) → List IgnoreRule → Option IgnoreRule
last_rule p [] = none
last_rule p (rule ∷ rules) = or_first (p rule) rule (last_rule p rules)

-- What a deciding rule comes to.
abbrev pub verdict : Option IgnoreRule → Match → Match
verdict none m = m
verdict (some rule) m = (not rule.negate, some rule)

verdict-follow :
    (b : Bool) (rule : IgnoreRule) (o : Option IgnoreRule) (m : Match)
    → verdict o (follow b rule m) ≡ verdict (or_first b rule o) m
verdict-follow true rule none m = refl
verdict-follow false rule none m = refl
verdict-follow b rule (some r) m = refl

match_rules_last :
    (lib : Library) (directory : Bool) (name : String) (rules : List IgnoreRule) (m : Match)
    → match_rules lib directory name rules m
      ≡ verdict (last_rule (applies lib directory name) rules) m
unfolding match_rules last_rule
match_rules_last lib directory name [] m = refl
match_rules_last lib directory name (rule ∷ rules) m =
    match_rules_last lib directory name rules (follow (applies lib directory name rule) rule m)
    ∙ verdict-follow (applies lib directory name rule) rule
        (last_rule (applies lib directory name) rules) m

-- The rule that decides about a path, if it lies below the base.
abbrev pub deciding : Library → IgnoreMatcher → Option String → Option IgnoreRule
deciding lib m none = none
deciding lib m (some value) =
    last_rule (applies lib (lib.has_suffix value "/") (lib.trim_suffix value "/")) m.rules

-- Whether a path is ignored, and which rule says so, is what the last rule that is about it says;
-- without one, and outside the base, it is not ignored.
pub matches_path_how_last :
    (lib : Library) (m : IgnoreMatcher) (value : String)
    → matches_path_how lib m value ≡ verdict (deciding lib m (inside lib m value)) (false, none)
unfolding matches_path_how
matches_path_how_last lib m value = below (inside lib m value)
  where
    below : (o : Option String) → match_inside lib m o ≡ verdict (deciding lib m o) (false, none)
    below none = refl
    below (some v) =
        match_rules_last lib (lib.has_suffix v "/") (lib.trim_suffix v "/") m.rules (false, none)
