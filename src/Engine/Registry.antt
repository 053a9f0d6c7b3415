-- ===== src/Engine/Registry.antt =====
-- The registry of engines (packages/shared/engine/registry.go) and the built-in ones (builtin.go).
-- Registering holds the lock throughout; a driver that Go passes as `nil` is `none`.
use Prim.Native.Char.{code}
use latexmk.Prelude.{
  ℕ, ◌≡◌, ◌≢◌, refl, String, String-discrete, Bool, true, false, ◌&&◌, ◌||◌, Option, none, some,
  List, [], ◌∷◌, Map, lookup, put, lookup-put_self, lookup-put_ne, Result, ok, err, leb, ◌==◌,
  if◌then◌else◌, ite, Option-cases, Bool-cases, inl, inr,
}

pub record Command : Type 0 where
  pub name : String
  pub args : List String

-- What a driver's methods return.
pub record Driver : Type 0 where
  pub latexmk_args : List String
  pub graphics_extensions : List String
  pub version_probe : Command

abbrev pub Registry : Type 0
Registry = Map Driver

-- unicode.IsSpace
abbrev is_space : ℕ → Bool
is_space c =
    leb 9 c && leb c 13
    || (c == 32 || c == 133 || c == 160 || c == 5760)
    || leb 8192 c && leb c 8202
    || (c == 8232 || c == 8233 || c == 8239 || c == 8287 || c == 12288)

-- strings.TrimSpace(name) == ""
abbrev all_space : String → Bool
all_space String.[] = true
all_space (String.◌∷◌ c s) = is_space (code c) && all_space s

-- strings.ContainsAny(name, "\x00\r\n")
abbrev breaks_line : String → Bool
breaks_line String.[] = false
breaks_line (String.◌∷◌ c s) = (code c == 0 || code c == 13 || code c == 10) || breaks_line s

abbrev is_empty : List String → Bool
is_empty [] = true
is_empty (x ∷ xs) = false

abbrev pub add_driver : String → Driver → Option Driver → Registry → Result (Unit {0}) × Registry
add_driver name d (some old) r = (err "engine is already registered", r)
add_driver name d none r = (ok tt, put name d r)

abbrev pub register_driver : String → Option Driver → Registry → Result (Unit {0}) × Registry
register_driver name none r = (err "engine driver is required", r)
register_driver name (some d) r =
    if is_empty d.latexmk_args || ite (String-discrete d.version_probe.name "") true false
    then (err "engine driver must provide latexmk arguments and a version probe", r)
    else add_driver name d (lookup name r) r

-- Register
unfoldable pub register : String → Option Driver → Registry → Result (Unit {0}) × Registry
register name d r =
    if all_space name || breaks_line name
    then (err "engine name must be nonempty and contain no NUL or newline", r)
    else register_driver name d r

-- Lookup
unfoldable pub find_driver : String → Registry → Result Driver
find_driver name r = elim (lookup name r) [ none ↦ err "unregistered engine" | some d ↦ ok d ]

abbrev pdf_extensions : List String
pdf_extensions =
    ".pdf" ∷ ".png" ∷ ".jpg" ∷ ".mps" ∷ ".jpeg" ∷ ".jbig2" ∷ ".jb2" ∷ ".PDF" ∷ ".PNG" ∷ ".JPG"
    ∷ ".JPEG" ∷ ".JBIG2" ∷ ".JB2" ∷ []

abbrev xe_extensions : List String
xe_extensions =
    ".pdf" ∷ ".PDF" ∷ ".ai" ∷ ".AI" ∷ ".png" ∷ ".PNG" ∷ ".jpg" ∷ ".JPG" ∷ ".jpeg" ∷ ".JPEG" ∷ ".jp2"
    ∷ ".JP2" ∷ ".jpf" ∷ ".JPF" ∷ ".bmp" ∷ ".BMP" ∷ ".ps" ∷ ".PS" ∷ ".eps" ∷ ".EPS" ∷ ".mps" ∷ ".MPS"
    ∷ []

abbrev driver : String → List String → List String → Driver
driver name args extensions = record {
  latexmk_args = args;
  graphics_extensions = extensions;
  version_probe = record { name = name; args = "--version" ∷ [] };
}

abbrev pub builtin : List (String × Driver)
builtin =
    ("pdflatex", driver "pdflatex" ("-pdf" ∷ []) pdf_extensions)
    ∷ (
      "lualatex",
      driver "lualatex" ("-lualatex" ∷ "-pdflualatex=lualatex --safer --nosocket %O %S" ∷ [])
          pdf_extensions,
    )
    ∷ ("xelatex", driver "xelatex" ("-xelatex" ∷ []) xe_extensions)
    ∷ []

-- Registering several drivers; `builtinRegistry` panics on an error.
unfoldable pub register_all : List (String × Driver) → Registry → Result Registry
register_all [] r = ok r
register_all ((name, d) ∷ ds) r =
    let rest = register_all ds (register name (some d) r).1 in
    elim (register name (some d) r).0 [ ok _ ↦ rest | err e ↦ err e ]

unfoldable pub builtin_registry : Result Registry
builtin_registry = register_all builtin []

-- What an answer of `register` says of the registry behind it.
abbrev pub Registered : String → Option Driver → Registry → Result (Unit {0}) → Registry → Type 0
Registered name d r (ok _) r' =
    (lookup name r ≡ none)
    × (lookup name r' ≡ d)
    × ((other : String) → name ≢ other → lookup other r' ≡ lookup other r)
Registered name d r (err e) r' = r' ≡ r

add_driver-Registered :
    (name : String) (d : Driver) (r : Registry)
    → Registered name
        (some d)
        r
        (add_driver name d (lookup name r) r).0
        (add_driver name d (lookup name r) r).1
add_driver-Registered name d r = elim (Option-cases (lookup name r)) [
  | inl free ↦ rw free (free, lookup-put_self name d r, λ other n. lookup-put_ne name other d r n)
  | inr (old, taken) ↦ rw taken refl
]

register_driver-Registered :
    (name : String) (d : Option Driver) (r : Registry)
    → Registered name d r (register_driver name d r).0 (register_driver name d r).1
register_driver-Registered name none r = refl
register_driver-Registered name (some d) r =
    elim (Bool-cases
      (is_empty d.latexmk_args || ite (String-discrete d.version_probe.name "") true false)) [
        | inl bad ↦ rw bad refl
        | inr good ↦ rw good (add_driver-Registered name d r)
      ]

-- Registering under a name that is free makes the driver known by that name and changes no other
-- name; with any error, so also under a name that is taken, the registry stays as it was.
pub register-Registered :
    (name : String) (d : Option Driver) (r : Registry)
    → Registered name d r (register name d r).0 (register name d r).1
unfolding register
register-Registered name d r = elim (Bool-cases (all_space name || breaks_line name)) [
  | inl bad ↦ rw bad refl
  | inr good ↦ rw good (register_driver-Registered name d r)
]
