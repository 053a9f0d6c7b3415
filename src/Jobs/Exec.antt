-- ===== src/Jobs/Exec.antt =====
-- Methods that change the manager and may fail: what was written before an error stays written.
pub mod Respects
use latexmk.Prelude.{String, Bool, true, false, Result, ok, err}
use latexmk.Jobs.State.{Manager}
use latexmk.Jobs.Store.{release}

abbrev pub Exec {ℓ} : Type ℓ → Type ℓ
Exec A = Manager → Result A × Manager

unfoldable pub pure {ℓ} : {A : Type ℓ} → A → Exec A
pure a m = (ok a, m)

unfoldable pub raise {ℓ} : {A : Type ℓ} → String → Exec A
raise e m = (err e, m)

unfoldable pub lift {ℓ} : {A : Type ℓ} → Result A → Exec A
lift r m = (r, m)

unfoldable pub modify : (Manager → Manager) → Exec (Unit {0})
modify f m = (ok tt, f m)

unfoldable pub gets {ℓ} : {A : Type ℓ} → (Manager → A) → Exec A
gets f m = (ok (f m), m)

abbrev pub continue {ℓ κ} :
    {A : Type ℓ} {B : Type κ}
    → (A → Manager → Result B × Manager)
    → Result A
    → Manager
    → Result B × Manager
continue f (ok a) m = f a m
continue f (err e) m = (err e, m)

-- if bad { return errors.New(message) }
unfoldable pub fail_if : Bool → String → Exec (Unit {0})
fail_if true e m = (err e, m)
fail_if false e m = (ok tt, m)

abbrev pub release_on_error {ℓ} : {A : Type ℓ} → String → Result A → Manager → Result A × Manager
release_on_error id (ok a) m = (ok a, m)
release_on_error id (err e) m = (err e, release id m)

-- A body under `defer func() { if !transferred { ReleaseSnapshot(id) } }()`.
unfoldable pub releasing {ℓ} : {A : Type ℓ} → String → Exec A → Exec A
releasing id x m = release_on_error id (x m).0 (x m).1

infixl 5 ◌>>=◌ ◌>>◌
-- Opening this opens the other actions too.
unfoldable pub ◌>>=◌ {ℓ κ} : {A : Type ℓ} {B : Type κ} → Exec A → (A → Exec B) → Exec B
unfolding pure raise lift modify gets fail_if releasing
◌>>=◌ x f m = continue f (x m).0 (x m).1

abbrev pub ◌>>◌ {ℓ} : {B : Type ℓ} → Exec (Unit {0}) → Exec B → Exec B
x >> y = x >>= λ _. y
