-- ===== src/Auth.antt =====
-- packages/server/internal/auth/auth.go: who a request is from, and what the middlewares let through. The
-- hash, the fields of a header and the database are parameters.
pub mod Granted
use text.Mathlib.Text.{◌==◌ as same}
use latexmk.Prelude.{
  ℕ, String, Bool, true, false, not, ◌&&◌, ◌||◌, Option, none, some, List, [], ◌∷◌, Result, ok, err,
  if◌then◌else◌,
}

pub record Principal : Type 0 where
  pub id : String
  pub name : String
  pub role : String

pub record User : Type 0 where
  pub user_id : String
  pub user_name : String
  pub user_role : String

-- The configuration, and the functions of the libraries: strings.Fields, `EqualFold` with "Bearer", the test
-- of a token's characters (protocol.ValidBearerToken) and SHA-256; and the database, if there is one.
pub record Config : Type 0 where
  pub auth_mode : String
  pub api_token : String
  pub bootstrap_token : String
  pub fields : String → List String
  pub is_bearer : String → Bool
  pub valid_bearer_token : String → Bool
  pub hash : String → String
  pub db : Option (String → Result User)

-- bearerToken
abbrev pub token_of : Config → List String → Result String
token_of c (scheme ∷ token ∷ []) =
    if c.is_bearer scheme && c.valid_bearer_token token
    then ok token
    else err "missing bearer token"
token_of c _ = err "missing bearer token"

unfoldable pub bearer_token : Config → String → Result String
bearer_token c header = token_of c (c.fields header)

-- constantEqual
unfoldable pub constant_equal : Config → String → String → Bool
constant_equal c a b = same (c.hash a) (c.hash b)

abbrev pub admin : String → String → Principal
admin id name = record { id = id; name = name; role = "admin" }

abbrev pub of_user : Result User → Result Principal
of_user (err e) = err e
of_user (ok u) = ok (record { id = u.user_id; name = u.user_name; role = u.user_role })

abbrev pub look_up : Option (String → Result User) → String → Result Principal
look_up none token = err "database is unavailable"
look_up (some find) token = of_user (find token)

-- The switch over the mode.
abbrev pub check_token : Config → String → Result Principal
check_token c token =
    if same c.auth_mode "token"
    then (if constant_equal c token c.api_token
        then ok (admin "static" "static-token")
        else err "invalid bearer token")
    else if same c.auth_mode "postgres" || same c.auth_mode "database"
    then (if constant_equal c token c.bootstrap_token
        then ok (admin "bootstrap" "bootstrap")
        else look_up c.db token)
    else err "authentication is misconfigured"

abbrev pub with_token : Config → Result String → Result Principal
with_token c (err e) = err e
with_token c (ok token) = check_token c token

abbrev pub with_values : Config → List String → Result Principal
with_values c (header ∷ []) = with_token c (bearer_token c header)
with_values c _ = err "exactly one bearer token is required"

-- Authenticate, with the values of the Authorization header.
unfoldable pub authenticate : Config → List String → Result Principal
authenticate c values =
    if same c.auth_mode "none" then ok (admin "local" "local") else with_values c values

-- What a middleware does with a request: it answers with a status and an error, or passes it on.
pub data Answer : Type 0 where
  refused : ℕ → String → Answer
  passed_on : Principal → Answer

abbrev pub answer : Bool → Result Principal → Answer
answer admin_only (err e) = refused 401 e
answer admin_only (ok p) =
    if admin_only && not (same p.role "admin")
    then refused 403 "administrator role required"
    else passed_on p

-- Middleware, and Require and RequireAdmin.
unfoldable pub middleware : Config → Bool → List String → Answer
middleware c admin_only values = answer admin_only (authenticate c values)
