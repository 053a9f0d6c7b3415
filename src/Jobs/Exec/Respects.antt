-- ===== src/Jobs/Exec/Respects.antt =====
-- Actions whose effect stays within a relation of the state before to the state after: one rule
-- for each way to build an action.
use latexmk.Prelude.{String, Bool, true, false, Result, ok, err}
use latexmk.Jobs.State.{Manager}
use latexmk.Jobs.Store.{release}
use latexmk.Jobs.Exec.{
  Exec, pure, lift, modify, gets, fail_if, releasing, release_on_error, continue, ◌>>=◌,
}

-- A relation that every part of an action may follow, one after the other.
pub record Closed (R : Manager → Manager → Type 0) : Type 0 where
  pub stays : (m : Manager) → R m m
  pub joins : (a b c : Manager) → R a b → R b c → R a c

pub record Respects {ℓ} {A : Type ℓ} (R : Manager → Manager → Type 0) (x : Exec A) : Type 0 where
  pub at : (m : Manager) → R m (x m).1

module _ {R : Manager → Manager → Type 0} (closed : Closed R) where
  pub Respects-pure {ℓ} : {A : Type ℓ} (a : A) → Respects R (pure a)
  unfolding pure
  Respects-pure a = record { at = closed.stays }

  pub Respects-lift {ℓ} : {A : Type ℓ} (r : Result A) → Respects R (lift r)
  unfolding lift
  Respects-lift r = record { at = closed.stays }

  pub Respects-gets {ℓ} : {A : Type ℓ} (f : Manager → A) → Respects R (gets f)
  unfolding gets
  Respects-gets f = record { at = closed.stays }

  pub Respects-fail_if : (b : Bool) (e : String) → Respects R (fail_if b e)
  unfolding fail_if
  Respects-fail_if true e = record { at = closed.stays }
  Respects-fail_if false e = record { at = closed.stays }

  pub Respects-modify :
      (f : Manager → Manager) → ((m : Manager) → R m (f m)) → Respects R (modify f)
  unfolding modify
  Respects-modify f h = record { at = h }

  continue-at {ℓ κ} :
      {A : Type ℓ} {B : Type κ} (f : A → Exec B) (r : Result A) (m : Manager)
      → ((a : A) → Respects R (f a))
      → R m (continue f r m).1
  continue-at f (ok a) m h = (h a).at m
  continue-at f (err e) m h = closed.stays m

  pub Respects-bind {ℓ κ} :
      {A : Type ℓ} {B : Type κ} (x : Exec A) (f : A → Exec B)
      → Respects R x
      → ((a : A) → Respects R (f a))
      → Respects R (x >>= f)
  unfolding ◌>>=◌
  Respects-bind x f hx hf = record {
    at = λ m. closed.joins m (x m).1 _ (hx.at m) (continue-at f (x m).0 (x m).1 hf);
  }

  released-at {ℓ} :
      {A : Type ℓ} (id : String) (r : Result A) (m : Manager)
      → ((m : Manager) → R m (release id m))
      → R m (release_on_error id r m).1
  released-at id (ok a) m h = closed.stays m
  released-at id (err e) m h = h m

  pub Respects-releasing {ℓ} :
      {A : Type ℓ} (id : String) (x : Exec A)
      → ((m : Manager) → R m (release id m))
      → Respects R x
      → Respects R (releasing id x)
  unfolding releasing
  Respects-releasing id x hr hx = record {
    at = λ m. closed.joins m (x m).1 _ (hx.at m) (released-at id (x m).0 (x m).1 hr);
  }

pub ruleset respects_rules = (
  Respects-pure, Respects-lift, Respects-gets, Respects-fail_if, Respects-modify, Respects-bind,
  Respects-releasing,
)
