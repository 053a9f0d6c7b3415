-- ===== src/Project/Names.antt =====
-- The names that packages/server/internal/project/store.go accepts, and the keys of its stores.
-- A text is read by its characters; `len` counts its bytes. The hash and the hexadecimal decoder
-- of Go's library, and its test for a local path, are parameters.
use Prim.Native.Char.{Char, code}
use Prim.Native.String.{[], ◌∷◌, ◌++◌, len, slice}
use text.Mathlib.Text.{◌==◌ as same, starts_with}
use latexmk.Prelude.{ℕ, String, Bool, true, false, not, ◌&&◌, ◌||◌, leb, ◌==◌, ◌+◌}

-- What store.go takes from Go's library: hex.DecodeString succeeds, the first 16 bytes of SHA-256 in
-- hexadecimal, and `clean != "." && filepath.IsLocal(clean)` behind path.Clean.
pub record Codec : Type 0 where
  pub decodes_hex : String → Bool
  pub short_hash : String → String
  pub is_local : String → Bool

abbrev between : ℕ → ℕ → ℕ → Bool
between low high n = leb low n && leb n high

abbrev is_id_char : Char → Bool
is_id_char c =
    between 97 122 (code c)
    || between 65 90 (code c)
    || between 48 57 (code c)
    || code c == 46
    || code c == 95
    || code c == 45

unfoldable pub all_id_chars : String → Bool
all_id_chars [] = true
all_id_chars (c ∷ s) = is_id_char c && all_id_chars s

unfoldable pub valid_project_id : String → Bool
valid_project_id value =
    not (len value == 0)
    && leb (len value) 128
    && all_id_chars value
    && not (same value ".")
    && not (same value "..")

unfoldable pub valid_sha256 : Codec → String → Bool
valid_sha256 c value = len value == 64 && c.decodes_hex value

-- strings.ContainsAny(name, "\\\x00:")
unfoldable pub has_forbidden : String → Bool
has_forbidden [] = false
has_forbidden (c ∷ s) = code c == 92 || code c == 0 || code c == 58 || has_forbidden s

-- safefs.Clean succeeds.
unfoldable pub valid_project_path : Codec → String → Bool
valid_project_path c name =
    not (len name == 0) && leb (len name) 4096 && not (has_forbidden name) && c.is_local name

abbrev pub owner_key : Codec → String → String
owner_key c owner = c.short_hash owner

-- digest[:2]
abbrev pub fan_out : String → String
fan_out digest = slice digest 0 2

unfoldable pub snapshot_key : String → String → String
snapshot_key owner project = owner ++ "\0" ++ project

unfoldable pub reference_key : String → String → String
reference_key owner digest = owner ++ "\0" ++ digest

-- safefs.IsStagedName
unfoldable pub is_staged_name : Codec → String → Bool
is_staged_name c name =
    starts_with name ".latexmk-"
    && len name == len ".latexmk-" + 32
    && c.decodes_hex (slice name 9 (len name))
