-- ===== src/Prelude/Sorting.antt =====
-- The sorting of a list by a text of each entry (`sort.Slice` and `sort.Strings` of Go's library, of
-- which the order of entries with one key is left open).
use Prim.Native.String.{String}
use mathlib.Core.Path.{◌≡◌, refl, sym, ap, ap₂, ◌∙◌, subst}
use mathlib.Core.Logic.{◌≢◌, inl, inr}
use mathlib.Core.Bool.{true, false}
use mathlib.Core.List.{List, [], ◌∷◌, Permᴰ as Perm}
use mathlib.Core.List.Permᴰ.{refl as Perm_refl}
use native.Mathlib.Omega.{arith}
use latexmk.Prelude.Tests.{Bool-cases}
use latexmk.Prelude.Lists.{All}
use latexmk.Prelude.Order.{
  text_lt, text_lt_trans, text_lt_asymm, text_lt-ne, text_le_lt_trans, text_lt_le_trans,
  ne_of-text_lt,
}

module _ {ℓ} {A : Type ℓ} (key : A → String) where
  unfoldable pub insert_by : A → List A → List A
  insert_by x [] = x ∷ []
  insert_by x (y ∷ ys) =
      let rest = insert_by x ys in
      elim (text_lt (key y) (key x)) [ true ↦ y ∷ rest | false ↦ x ∷ y ∷ ys ]

  unfoldable pub sort_by : List A → List A
  sort_by [] = []
  sort_by (x ∷ xs) = insert_by x (sort_by xs)

  -- No later key comes before an earlier one; each key before all later ones; no two the same.
  abbrev pub Ordered : List A → Type ℓ
  Ordered [] = Unit
  Ordered (x ∷ xs) = All (λ y. text_lt (key y) (key x) ≡ false) xs × Ordered xs

  abbrev pub Ascending : List A → Type ℓ
  Ascending [] = Unit
  Ascending (x ∷ xs) = All (λ y. text_lt (key x) (key y) ≡ true) xs × Ascending xs

  abbrev pub Apart : List A → Type ℓ
  Apart [] = Unit
  Apart (x ∷ xs) = All (λ y. key x ≢ key y) xs × Apart xs

  insert_comm_step :
      (x y z : A) (zs : List A)
      → key x ≢ key y
      → insert_by x (insert_by y zs) ≡ insert_by y (insert_by x zs)
      → insert_by x (insert_by y (z ∷ zs)) ≡ insert_by y (insert_by x (z ∷ zs))
  unfolding insert_by
  insert_comm_step x y z zs h ih = ground (
    arith,
    ih,
    text_lt-ne (key x) (key y) h,
    text_lt_asymm (key x) (key y),
    text_lt_asymm (key y) (key x),
    text_le_lt_trans (key y) (key z) (key x),
    text_le_lt_trans (key x) (key z) (key y),
  )

  insert_comm :
      (x y : A) (zs : List A)
      → key x ≢ key y
      → insert_by x (insert_by y zs) ≡ insert_by y (insert_by x zs)
  unfolding insert_by
  insert_comm x y [] h = ground (
    arith,
    text_lt-ne (key x) (key y) h,
    text_lt_asymm (key x) (key y),
    text_lt_asymm (key y) (key x),
  )
  insert_comm x y (z ∷ zs) h = insert_comm_step x y z zs h (insert_comm x y zs h)

  pub All-Perm {κ} : (P : A → Type κ) {xs ys : List A} → Perm xs ys → All P xs → All P ys
  All-Perm P Perm.nil h = h
  All-Perm P (Perm.cons e p) (h, hs) = (subst P e h, All-Perm P p hs)
  All-Perm P (Perm.swap e f) (h, (g, hs)) = (subst P f g, (subst P e h, hs))
  All-Perm P (Perm.trans p q) h = All-Perm P q (All-Perm P p h)

  pub Apart-Perm : {xs ys : List A} → Perm xs ys → Apart xs → Apart ys
  Apart-Perm Perm.nil h = h
  Apart-Perm (Perm.cons {l₂ = l} e p) (h, hs) =
      (subst (λ a. All (λ y. key a ≢ key y) l) e (All-Perm _ p h), Apart-Perm p hs)
  Apart-Perm (Perm.swap {l = l} e f) ((n, h), (g, hs)) = (
    (λ q. n (ap key e ∙ sym q ∙ sym (ap key f)), subst (λ a. All (λ y. key a ≢ key y) l) f g),
    (subst (λ a. All (λ y. key a ≢ key y) l) e h, hs),
  )
  Apart-Perm (Perm.trans p q) h = Apart-Perm q (Apart-Perm p h)

  -- Where no two entries have one key, the order of the list does not matter.
  pub sort_by-Perm : {xs ys : List A} → Perm xs ys → Apart xs → sort_by xs ≡ sort_by ys
  unfolding sort_by
  sort_by-Perm Perm.nil h = refl
  sort_by-Perm (Perm.cons e p) (h, hs) = ap₂ insert_by e (sort_by-Perm p hs)
  sort_by-Perm (Perm.swap {l = l} e f) ((n, _), _) =
      insert_comm _ _ (sort_by l) n ∙ ap₂ (λ a b. insert_by a (insert_by b (sort_by l))) f e
  sort_by-Perm (Perm.trans p q) h = sort_by-Perm p h ∙ sort_by-Perm q (Apart-Perm p h)

  insert_by-Perm : (x : A) (xs : List A) → Perm (x ∷ xs) (insert_by x xs)
  unfolding insert_by
  insert_by-Perm x [] = Perm.cons refl Perm.nil
  insert_by-Perm x (y ∷ ys) = elim (Bool-cases (text_lt (key y) (key x))) [
    | inl e ↦
        rw (insert_by, e) (Perm.trans (Perm.swap refl refl) (Perm.cons refl (insert_by-Perm x ys)))
    | inr e ↦ rw (insert_by, e) (Perm_refl (x ∷ y ∷ ys))
  ]

  -- The entries stay the same, each as often.
  pub sort_by_perm : (xs : List A) → Perm xs (sort_by xs)
  unfolding sort_by
  sort_by_perm [] = Perm.nil
  sort_by_perm (x ∷ xs) =
      Perm.trans (Perm.cons refl (sort_by_perm xs)) (insert_by-Perm x (sort_by xs))

  insert_by_of-Ordered : (x : A) (xs : List A) → Ordered (x ∷ xs) → insert_by x xs ≡ x ∷ xs
  unfolding insert_by
  insert_by_of-Ordered x [] h = refl
  insert_by_of-Ordered x (y ∷ ys) ((e, _), _) = rw (insert_by, e) refl

  pub sort_by_of-Ordered : (xs : List A) → Ordered xs → sort_by xs ≡ xs
  unfolding sort_by
  sort_by_of-Ordered [] h = refl
  sort_by_of-Ordered (x ∷ xs) (h, hs) =
      ap (insert_by x) (sort_by_of-Ordered xs hs) ∙ insert_by_of-Ordered x xs (h, hs)

  All-le_trans :
      (s t : String) (zs : List A)
      → text_lt t s ≡ false
      → All (λ z. text_lt (key z) t ≡ false) zs
      → All (λ z. text_lt (key z) s ≡ false) zs
  All-le_trans s t [] h hs = tt
  All-le_trans s t (z ∷ zs) h (g, hs) = (
    ground (
      arith,
      h,
      g,
      text_lt_trans (key z) s t,
      text_le_lt_trans s t (key z),
      text_lt_le_trans (key z) s t,
    ),
    All-le_trans s t zs h hs,
  )

  insert_by-Ordered : (x : A) (xs : List A) → Ordered xs → Ordered (insert_by x xs)
  unfolding insert_by
  insert_by-Ordered x [] h = (tt, tt)
  insert_by-Ordered x (y ∷ ys) (h, hs) = elim (Bool-cases (text_lt (key y) (key x))) [
    | inl e ↦
        rw (insert_by, e)
          (
            All-Perm _ (insert_by-Perm x ys) (text_lt_asymm (key y) (key x) e, h),
            insert_by-Ordered x ys hs,
          )
    | inr e ↦ rw (insert_by, e) ((e, All-le_trans (key x) (key y) ys e h), (h, hs))
  ]

  pub sort_by-Ordered : (xs : List A) → Ordered (sort_by xs)
  unfolding sort_by
  sort_by-Ordered [] = tt
  sort_by-Ordered (x ∷ xs) = insert_by-Ordered x (sort_by xs) (sort_by-Ordered xs)

  All-lt_le_trans :
      (s t : String) (zs : List A)
      → text_lt s t ≡ true
      → All (λ z. text_lt (key z) t ≡ false) zs
      → All (λ z. text_lt s (key z) ≡ true) zs
  All-lt_le_trans s t [] h hs = tt
  All-lt_le_trans s t (z ∷ zs) h (g, hs) =
      (text_lt_le_trans s t (key z) h g, All-lt_le_trans s t zs h hs)

  -- An ordered list of which neighbours differ is ascending.
  pub Ascending-cons :
      (x y : A) (ys : List A)
      → Ordered (x ∷ y ∷ ys)
      → key x ≢ key y
      → Ascending (y ∷ ys)
      → Ascending (x ∷ y ∷ ys)
  Ascending-cons x y ys ((e, _), (g, _)) n h =
      let below = text_lt-ne (key y) (key x) (λ q. n (sym q)) e in
      ((below, All-lt_le_trans (key x) (key y) ys below g), h)

  All-lt_ne :
      (s : String) (zs : List A) → All (λ z. text_lt s (key z) ≡ true) zs → All (λ z. s ≢ key z) zs
  All-lt_ne s [] h = tt
  All-lt_ne s (z ∷ zs) (h, hs) = (ne_of-text_lt s (key z) h, All-lt_ne s zs hs)

  pub Ascending→Apart : (xs : List A) → Ascending xs → Apart xs
  Ascending→Apart [] h = tt
  Ascending→Apart (x ∷ xs) (h, hs) = (All-lt_ne (key x) xs h, Ascending→Apart xs hs)
