-- ===== src/Prelude/Maps.antt =====
-- Go's `map[string]V` as an association list. A write replaces the entry in place or adds one at
-- the end; `delete` drops every entry of its key. Go leaves the order of a `range` unspecified.
use Prim.Native.Nat.{ℕ, suc, ◌+◌}
use Prim.Native.String.{String}
use mathlib.Core.Path.{◌≡◌, refl, sym, ◌∙◌, subst}
use mathlib.Core.Logic.{◌≢◌, ite, if_pos, if_neg, inl, inr}
use mathlib.Core.Bool.{Bool, true, false}
use mathlib.Core.Option.{Option, none, some}
use mathlib.Core.List.{List, [], ◌∷◌}
use native.Mathlib.Omega.{arith}
use latexmk.Prelude.Tests.{String-discrete, Bool-cases}

abbrev pub Map {ℓ} : Type ℓ → Type ℓ
Map V = List (String × V)

module _ {ℓ} {V : Type ℓ} where
  -- v, ok := m[k]
  unfoldable pub lookup : String → Map V → Option V
  lookup k [] = none
  lookup k ((j, v) ∷ m) = let rest = lookup k m in ite (String-discrete j k) (some v) rest

  -- m[k] = v
  unfoldable pub put : String → V → Map V → Map V
  put k v [] = (k, v) ∷ []
  put k v ((j, w) ∷ m) =
      let rest = put k v m in ite (String-discrete j k) ((k, v) ∷ m) ((j, w) ∷ rest)

  -- delete(m, k)
  unfoldable pub delete : String → Map V → Map V
  delete k [] = []
  delete k ((j, w) ∷ m) = let rest = delete k m in ite (String-discrete j k) rest ((j, w) ∷ rest)

  -- for k, v := range m { if p(k, v) { delete(m, k) } }
  unfoldable pub delete_where : (String → V → Bool) → Map V → Map V
  delete_where p [] = []
  delete_where p ((j, w) ∷ m) =
      let rest = delete_where p m in elim (p j w) [ true ↦ rest | false ↦ (j, w) ∷ rest ]

  -- The number of values that pass a test.
  unfoldable pub count_if : (V → Bool) → Map V → ℕ
  count_if p [] = 0
  count_if p ((j, w) ∷ m) = let rest = count_if p m in elim (p w) [ true ↦ suc rest | false ↦ rest ]

  abbrev pub tally : (V → Bool) → Option V → ℕ
  tally p none = 0
  tally p (some v) = elim (p v) [ true ↦ 1 | false ↦ 0 ]

  pub lookup-put :
      (k j : String) (v : V) (m : Map V)
      → lookup j (put k v m) ≡ ite (String-discrete k j) (some v) (lookup j m)
  unfolding lookup put
  lookup-put k j v [] = ground arith
  lookup-put k j v ((i, w) ∷ m) = ground (arith, lookup-put k j v m)

  pub lookup-put_self : (k : String) (v : V) (m : Map V) → lookup k (put k v m) ≡ some v
  lookup-put_self k v m = ground (arith, lookup-put k k v m)

  pub lookup-put_ne : (k j : String) (v : V) (m : Map V) → k ≢ j → lookup j (put k v m) ≡ lookup j m
  lookup-put_ne k j v m h = ground (arith, lookup-put k j v m)

  pub lookup-delete :
      (k j : String) (m : Map V)
      → lookup j (delete k m) ≡ ite (String-discrete k j) none (lookup j m)
  unfolding lookup delete
  lookup-delete k j [] = ground arith
  lookup-delete k j ((i, w) ∷ m) = ground (arith, lookup-delete k j m)

  -- A write changes the number of passing values by the value it replaces and the one it sets.
  pub count_if-put :
      (p : V → Bool) (k : String) (v : V) (m : Map V)
      → count_if p (put k v m) + tally p (lookup k m) ≡ count_if p m + tally p (some v)
  unfolding count_if put lookup
  count_if-put p k v [] = ground arith
  count_if-put p k v ((j, w) ∷ m) = ground (arith, count_if-put p k v m)

  -- Dropping values that do not pass a test keeps the number of those that do.
  pub count_if-delete_where :
      (p : V → Bool) (q : String → V → Bool) (m : Map V)
      → ((k : String) (v : V) → q k v ≡ true → p v ≡ false)
      → count_if p (delete_where q m) ≡ count_if p m
  unfolding count_if delete_where
  count_if-delete_where p q [] h = refl
  count_if-delete_where p q ((j, w) ∷ m) h = ground (arith, count_if-delete_where p q m h, h j w)

  -- No key stands twice.
  abbrev pub Absent : String → Map V → Type 0
  Absent k [] = Unit
  Absent k ((j, w) ∷ m) = (j ≢ k) × Absent k m

  abbrev pub Distinct : Map V → Type 0
  Distinct [] = Unit
  Distinct ((j, w) ∷ m) = Absent j m × Distinct m

  Absent-put : (j k : String) (v : V) (m : Map V) → k ≢ j → Absent j m → Absent j (put k v m)
  unfolding put
  Absent-put j k v [] n h = (n, tt)
  Absent-put j k v ((i, w) ∷ m) n (p, h) = elim (String-discrete i k) [
    | yes e ↦ rw (if_pos _ e) (n, h)
    | no e ↦ rw (if_neg _ e) (p, Absent-put j k v m n h)
  ]

  pub put-Distinct : (k : String) (v : V) (m : Map V) → Distinct m → Distinct (put k v m)
  unfolding put
  put-Distinct k v [] h = (tt, tt)
  put-Distinct k v ((i, w) ∷ m) (p, h) = elim (String-discrete i k) [
    | yes e ↦ rw (if_pos _ e) (subst (λ j. Absent j m) e p, h)
    | no e ↦ rw (if_neg _ e) (Absent-put i k v m (λ q. e (sym q)) p, put-Distinct k v m h)
  ]

  Absent-delete_where :
      (j : String) (p : String → V → Bool) (m : Map V) → Absent j m → Absent j (delete_where p m)
  unfolding delete_where
  Absent-delete_where j p [] h = tt
  Absent-delete_where j p ((i, w) ∷ m) (n, h) = elim (Bool-cases (p i w)) [
    | inl e ↦ rw (e, delete_where) (Absent-delete_where j p m h)
    | inr e ↦ rw (e, delete_where) (n, Absent-delete_where j p m h)
  ]

  pub delete_where-Distinct :
      (p : String → V → Bool) (m : Map V) → Distinct m → Distinct (delete_where p m)
  unfolding delete_where
  delete_where-Distinct p [] h = tt
  delete_where-Distinct p ((i, w) ∷ m) (n, h) = elim (Bool-cases (p i w)) [
    | inl e ↦ rw (e, delete_where) (delete_where-Distinct p m h)
    | inr e ↦ rw (e, delete_where) (Absent-delete_where i p m n, delete_where-Distinct p m h)
  ]

  lookup_of_Absent : (k : String) (m : Map V) → Absent k m → lookup k m ≡ none
  unfolding lookup
  lookup_of_Absent k [] h = refl
  lookup_of_Absent k ((i, w) ∷ m) (n, h) = rw (if_neg _ n) (lookup_of_Absent k m h)

  abbrev pub surviving : (V → Bool) → Option V → Option V
  surviving p none = none
  surviving p (some v) = elim (p v) [ true ↦ none | false ↦ some v ]

  -- Exactly the entries that pass the test are dropped.
  pub lookup-delete_where :
      (k : String) (p : String → V → Bool) (m : Map V)
      → Distinct m
      → lookup k (delete_where p m) ≡ surviving (p k) (lookup k m)
  unfolding lookup delete_where
  lookup-delete_where k p [] h = refl
  lookup-delete_where k p ((i, w) ∷ m) (n, h) = ground (
    arith,
    lookup-delete_where k p m h,
    lookup_of_Absent i (delete_where p m) (Absent-delete_where i p m n),
  )

  Absent-delete : (j k : String) (m : Map V) → Absent j m → Absent j (delete k m)
  unfolding delete
  Absent-delete j k [] h = tt
  Absent-delete j k ((i, w) ∷ m) (n, h) = elim (String-discrete i k) [
    | yes e ↦ rw (delete, if_pos _ e) (Absent-delete j k m h)
    | no e ↦ rw (delete, if_neg _ e) (n, Absent-delete j k m h)
  ]

  pub delete-Distinct : (k : String) (m : Map V) → Distinct m → Distinct (delete k m)
  unfolding delete
  delete-Distinct k [] h = tt
  delete-Distinct k ((i, w) ∷ m) (n, h) = elim (String-discrete i k) [
    | yes e ↦ rw (delete, if_pos _ e) (delete-Distinct k m h)
    | no e ↦ rw (delete, if_neg _ e) (Absent-delete i k m n, delete-Distinct k m h)
  ]

  -- A property of every value of a map, and what keeps it.
  abbrev pub Values {κ} : (V → Type κ) → Map V → Type κ
  Values P [] = Unit
  Values P ((_, v) ∷ m) = P v × Values P m

  pub Values-lookup {κ} :
      (P : V → Type κ) (k : String) (v : V) (m : Map V) → Values P m → lookup k m ≡ some v → P v
  unfolding lookup
  Values-lookup P k v [] h e = ground arith
  Values-lookup P k v ((i, w) ∷ m) (h, hs) e = elim (String-discrete i k) [
    | yes q ↦ subst P (cc (sym (if_pos (String-discrete i k) q _ _) ∙ e)) h
    | no q ↦ Values-lookup P k v m hs (sym (if_neg (String-discrete i k) q _ _) ∙ e)
  ]

  pub Values-put {κ} :
      (P : V → Type κ) (k : String) (v : V) (m : Map V) → Values P m → P v → Values P (put k v m)
  unfolding put
  Values-put P k v [] h p = (p, tt)
  Values-put P k v ((i, w) ∷ m) (h, hs) p = elim (String-discrete i k) [
    | yes q ↦ rw (put, if_pos (String-discrete i k) q) (p, hs)
    | no q ↦ rw (put, if_neg (String-discrete i k) q) (h, Values-put P k v m hs p)
  ]

  pub Values-delete {κ} :
      (P : V → Type κ) (k : String) (m : Map V) → Values P m → Values P (delete k m)
  unfolding delete
  Values-delete P k [] h = tt
  Values-delete P k ((i, w) ∷ m) (h, hs) = elim (String-discrete i k) [
    | yes q ↦ rw (delete, if_pos (String-discrete i k) q) (Values-delete P k m hs)
    | no q ↦ rw (delete, if_neg (String-discrete i k) q) (h, Values-delete P k m hs)
  ]

  pub Values-delete_where {κ} :
      (P : V → Type κ) (q : String → V → Bool) (m : Map V)
      → Values P m
      → Values P (delete_where q m)
  unfolding delete_where
  Values-delete_where P q [] h = tt
  Values-delete_where P q ((i, w) ∷ m) (h, hs) = elim (Bool-cases (q i w)) [
    | inl e ↦ rw (e, delete_where) (Values-delete_where P q m hs)
    | inr e ↦ rw (e, delete_where) (h, Values-delete_where P q m hs)
  ]
