-- ===== src/Auth/Granted.antt =====
-- On what grounds a request is passed on.
use text.Mathlib.Text.{◌==◌ as same}
use text.Mathlib.TextEquality.{eq_iff}
use latexmk.Prelude.{
  ◌≡◌, ◌≢◌, refl, sym, ap, ◌∙◌, ◌⊎◌, inl, inr, String, Bool, true, false, ◌||◌, Option, none, some,
  List, [], ◌∷◌, Result, ok, err, if◌then◌else◌, arith, Bool-cases,
}
use mathlib.Core.Bool.{true≢false}
use latexmk.Auth.{
  Principal, User, Config, bearer_token, constant_equal, admin, of_user, look_up, check_token,
  with_token, with_values, authenticate, Answer, answer, middleware,
}

abbrev pub by_database : Config → Bool
by_database c = same c.auth_mode "postgres" || same c.auth_mode "database"

-- Why a token is accepted: it has the hash of the configured one of the mode, or the database
-- knows it.
pub data Ground (c : Config) (token : String) : Principal → Type 0 where
  static :
      (p : Principal)
      → p ≡ admin "static" "static-token"
      → same c.auth_mode "token" ≡ true
      → constant_equal c token c.api_token ≡ true
      → Ground c token p
  bootstrap :
      (p : Principal)
      → p ≡ admin "bootstrap" "bootstrap"
      → by_database c ≡ true
      → constant_equal c token c.bootstrap_token ≡ true
      → Ground c token p
  known :
      (p : Principal) (find : String → Result User)
      → c.db ≡ some find
      → of_user (find token) ≡ ok p
      → by_database c ≡ true
      → Ground c token p

-- Why a request is accepted: authentication is off, or its one header has a good token.
pub data Granted (c : Config) (values : List String) (p : Principal) : Type 0 where
  open_mode : same c.auth_mode "none" ≡ true → p ≡ admin "local" "local" → Granted c values p
  by_token :
      (header token : String)
      → values ≡ header ∷ []
      → bearer_token c header ≡ ok token
      → Ground c token p
      → Granted c values p

ok_same : (a p : Principal) → ok a ≡ ok p → p ≡ a
ok_same a p h = sym (cc h)

look_up-Ground :
    (c : Config) (token : String) (o : Option (String → Result User)) (p : Principal)
    → c.db ≡ o
    → by_database c ≡ true
    → look_up o token ≡ ok p
    → Ground c token p
look_up-Ground c token none p d m h = ground arith
look_up-Ground c token (some find) p d m h = Ground.known p find d h m

chosen :
    (c : Config) (token : String) (p : Principal) (other : Bool)
    → by_database c ≡ other
    → (if other
        then (if constant_equal c token c.bootstrap_token
            then ok (admin "bootstrap" "bootstrap")
            else look_up c.db token)
        else err "authentication is misconfigured")
      ≡ ok p
    → Ground c token p
chosen c token p false m h = ground arith
chosen c token p true m h = elim (Bool-cases (constant_equal c token c.bootstrap_token)) [
  | inl e ↦
      Ground.bootstrap p
        (ok_same (admin "bootstrap" "bootstrap") p (
          sym (ap (λ b. if b then ok (admin "bootstrap" "bootstrap") else look_up c.db token) e)
          ∙ h))
        m e
  | inr e ↦
      look_up-Ground c token c.db p refl m
        (sym (ap (λ b. if b then ok (admin "bootstrap" "bootstrap") else look_up c.db token) e) ∙ h)
]

check_token-Ground :
    (c : Config) (token : String) (p : Principal) → check_token c token ≡ ok p → Ground c token p
check_token-Ground c token p h =
    by_mode (same c.auth_mode "token") (constant_equal c token c.api_token) refl refl h
  where
    by_mode :
        (mode equal : Bool)
        → same c.auth_mode "token" ≡ mode
        → constant_equal c token c.api_token ≡ equal
        → (if mode
            then (if equal then ok (admin "static" "static-token") else err "invalid bearer token")
            else if same c.auth_mode "postgres" || same c.auth_mode "database"
            then (if constant_equal c token c.bootstrap_token
                then ok (admin "bootstrap" "bootstrap")
                else look_up c.db token)
            else err "authentication is misconfigured")
          ≡ ok p
        → Ground c token p
    by_mode true true m e q = Ground.static p (ok_same (admin "static" "static-token") p q) m e
    by_mode true false m e q = ground arith
    by_mode false equal m e q = chosen c token p (by_database c) refl q

with_token-Granted :
    (c : Config) (header : String) (r : Result String) (p : Principal)
    → bearer_token c header ≡ r
    → with_token c r ≡ ok p
    → Granted c (header ∷ []) p
with_token-Granted c header (err e) p b h = ground arith
with_token-Granted c header (ok token) p b h =
    Granted.by_token header token refl b (check_token-Ground c token p h)

with_values-Granted :
    (c : Config) (values : List String) (p : Principal)
    → with_values c values ≡ ok p
    → Granted c values p
with_values-Granted c [] p h = ground arith
with_values-Granted c (header ∷ []) p h =
    with_token-Granted c header (bearer_token c header) p refl h
with_values-Granted c (a ∷ b ∷ values) p h = ground arith

-- A principal comes from one of four grounds: authentication is off, or the request has exactly one
-- Authorization header, of a well-formed bearer token that has the hash of the static token (mode
-- "token") or, in the modes "postgres" and "database", that of the bootstrap token, or that the
-- database knows.
pub authenticate-Granted :
    (c : Config) (values : List String) (p : Principal)
    → authenticate c values ≡ ok p
    → Granted c values p
unfolding authenticate
authenticate-Granted c values p h = elim (Bool-cases (same c.auth_mode "none")) [
  | inl e ↦ Granted.open_mode e (
      ok_same (admin "local" "local") p
        (sym (ap (λ b. if b then ok (admin "local" "local") else with_values c values) e) ∙ h))
  | inr e ↦
      with_values-Granted c values p
        (sym (ap (λ b. if b then ok (admin "local" "local") else with_values c values) e) ∙ h)
]

-- What an answer lets through, and why it refuses.
abbrev pub LetThrough : Config → Bool → List String → Answer → Type 0
LetThrough c admin_only values (Answer.refused status e) =
    ((status ≡ 401) × (authenticate c values ≡ err e))
    ⊎ (status ≡ 403)
      × (admin_only ≡ true)
      × ((p : Principal) × (authenticate c values ≡ ok p) × (p.role ≢ "admin"))
LetThrough c admin_only values (Answer.passed_on p) =
    (authenticate c values ≡ ok p)
    × Granted c values p
    × ((admin_only ≡ false) ⊎ (p.role ≡ "admin"))

-- A middleware passes a request on only where authentication is off, or its one Authorization header
-- has a well-formed bearer token with the hash of the static token (mode "token") or, in the modes
-- "postgres" and "database", with that of the bootstrap token or known to the database; and where it
-- is for administrators only with the role "admin". Every other request is refused: with 401 and the
-- error of authentication where that fails, with 403 only where the middleware is for administrators
-- and the request comes from someone whose role is not "admin".
pub middleware-LetThrough :
    (c : Config) (admin_only : Bool) (values : List String)
    → LetThrough c admin_only values (middleware c admin_only values)
unfolding middleware
middleware-LetThrough c admin_only values = answered admin_only (authenticate c values) refl
  where
    answered :
        (b : Bool) (r : Result Principal)
        → authenticate c values ≡ r
        → LetThrough c b values (answer b r)
    answered b (err e) h = inl (refl, h)
    answered false (ok p) h = (h, authenticate-Granted c values p h, inl refl)
    answered true (ok p) h = elim (Bool-cases (same p.role "admin")) [
      | inl e ↦ rw e (h, authenticate-Granted c values p h, inr ((eq_iff p.role "admin").0 e))
      | inr e ↦
          rw e (inr (refl, refl, (p, h, λ q. true≢false (sym ((eq_iff p.role "admin").1 q) ∙ e))))
    ]
