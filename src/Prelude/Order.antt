-- ===== src/Prelude/Order.antt =====
-- The order of texts: Go compares them by their bytes, which for UTF-8 is by their characters.
use Prim.Native.Nat.{ℕ, compare as compare_ℕ, Ordering}
use Prim.Native.Char.{Char, code}
use Prim.Native.String.compare as compare
use Prim.Native.String.{String, [], ◌∷◌, compare as compare_text, then}
use mathlib.Core.Path.{◌≡◌, refl, sym, ap, ap₂, ◌∙◌, subst}
use mathlib.Core.Logic.{◌≢◌, inl, inr}
use latexmk.Prelude.Tests.{Bool-cases}
use mathlib.Core.Bool.{Bool, true, false, true≢false}
use native.Mathlib.Omega.{arith}
use text.Mathlib.TextPositions.{compare_refl}
use text.Mathlib.TextEquality.{Char-path}

-- s < t
abbrev is_lt : Ordering → Bool
is_lt Ordering.lt = true
is_lt Ordering.eq = false
is_lt Ordering.gt = false

unfoldable pub text_lt : String → String → Bool
text_lt s t = is_lt (compare_text s t)

text_lt-cons :
    (c d : Char) (s t : String)
    → text_lt (c ∷ s) (d ∷ t) ≡ is_lt (then (compare_ℕ (code c) (code d)) (compare_text s t))
unfolding text_lt
text_lt-cons c d s t = ap is_lt (compare.cons-cons c d s t)

then_trans :
    (a b c : ℕ) (x y z : Ordering)
    → (is_lt x ≡ true → is_lt y ≡ true → is_lt z ≡ true)
    → is_lt (then (compare_ℕ a b) x) ≡ true
    → is_lt (then (compare_ℕ b c) y) ≡ true
    → is_lt (then (compare_ℕ a c) z) ≡ true
then_trans a b c x y z f g h = ground (arith, f)

text_lt-nil : (t : String) → text_lt t [] ≡ false
unfolding text_lt
text_lt-nil [] = refl
text_lt-nil (d ∷ t) = ap is_lt (compare.cons-nil d t)

then_total :
    (a b : ℕ) (x y : Ordering)
    → is_lt (then (compare_ℕ a b) x) ≡ false
    → is_lt (then (compare_ℕ b a) y) ≡ false
    → (a ≡ b) × (is_lt x ≡ false) × (is_lt y ≡ false)
then_total a b x y g h = ground arith

pub text_lt_trans : (s t u : String) → text_lt s t ≡ true → text_lt t u ≡ true → text_lt s u ≡ true
unfolding text_lt
text_lt_trans s [] u g h = absurd (ground (arith, text_lt-nil s))
text_lt_trans s (d ∷ t) [] g h = absurd (ground (arith, text_lt-nil (d ∷ t)))
text_lt_trans [] (d ∷ t) (e ∷ u) g h = ap is_lt (compare.nil-cons e u)
text_lt_trans (c ∷ s) (d ∷ t) (e ∷ u) g h =
    text_lt-cons c e s u
    ∙ then_trans (code c) (code d) (code e) (compare_text s t) (compare_text t u) (compare_text s u)
        (text_lt_trans s t u) (sym (text_lt-cons c d s t) ∙ g) (sym (text_lt-cons d e t u) ∙ h)

pub text_lt_irrefl : (s : String) → text_lt s s ≡ false
unfolding text_lt
text_lt_irrefl s = rw (compare_refl s) refl

pub text_lt_asymm : (s t : String) → text_lt s t ≡ true → text_lt t s ≡ false
text_lt_asymm s t h = ground (arith, text_lt_trans s t s, text_lt_irrefl s)

-- Two texts of which neither comes before the other are the same.
pub text_lt_total : (s t : String) → text_lt s t ≡ false → text_lt t s ≡ false → s ≡ t
unfolding text_lt
text_lt_total [] [] g h = refl
text_lt_total [] (d ∷ t) g h = absurd (true≢false (sym (ap is_lt (compare.nil-cons d t)) ∙ g))
text_lt_total (c ∷ s) [] g h = absurd (true≢false (sym (ap is_lt (compare.nil-cons c s)) ∙ h))
text_lt_total (c ∷ s) (d ∷ t) g h =
    let both =
      then_total (code c) (code d) (compare_text s t) (compare_text t s)
        (sym (text_lt-cons c d s t) ∙ g) (sym (text_lt-cons d c t s) ∙ h) in
    ap₂ (λ a b. a ∷ b) (Char-path c d both.0) (text_lt_total s t both.1 both.2)

pub text_le_lt_trans :
    (s t u : String) → text_lt t s ≡ false → text_lt t u ≡ true → text_lt s u ≡ true
text_le_lt_trans s t u g h = elim (Bool-cases (text_lt s t)) [
  | inl e ↦ text_lt_trans s t u e h
  | inr e ↦ subst (λ a. text_lt a u ≡ true) (sym (text_lt_total s t e g)) h
]

pub text_lt_le_trans :
    (s t u : String) → text_lt s t ≡ true → text_lt u t ≡ false → text_lt s u ≡ true
text_lt_le_trans s t u g h = elim (Bool-cases (text_lt t u)) [
  | inl e ↦ text_lt_trans s t u g e
  | inr e ↦ subst (λ a. text_lt s a ≡ true) (text_lt_total t u e h) g
]

-- Two different texts: one of them comes before the other.
pub text_lt-ne : (s t : String) → s ≢ t → text_lt s t ≡ false → text_lt t s ≡ true
text_lt-ne s t n h = elim (Bool-cases (text_lt t s)) [
  | inl e ↦ e
  | inr e ↦ absurd (n (text_lt_total s t h e))
]

pub ne_of-text_lt : (s t : String) → text_lt s t ≡ true → s ≢ t
ne_of-text_lt s t h e = absurd (true≢false (sym h ∙ ap (text_lt s) (sym e) ∙ text_lt_irrefl s))
