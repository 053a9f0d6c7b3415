-- ===== src/Project/Trace/Blobs.antt =====
-- Blobs stay what their digests say, and an upload never takes one away.
use text.Mathlib.TextEquality.{eq_iff}
use mathlib.Core.Bool.{true≢false}
use latexmk.Prelude.{
  ℕ, ◌≡◌, refl, sym, ap, ◌∙◌, subst, String, true, false, ◌==◌, Option, none, some, List, [], ◌∷◌,
  All, length, arith, inl, inr, Bool-cases,
}
use latexmk.Project.Names.{Codec, valid_sha256}
use latexmk.Project.State.{StateFile, Store}
use latexmk.Project.Blobs.{
  same_parts, find_file, put_file, blob_path, has_blob, is_regular_of, last_part, Verdict, Walked,
  walk, walk_file,
}
use latexmk.Project.Sweep.Kept.{same_parts-eq, both_true}
use latexmk.Project.Puts.Change.{Added}

-- Of the contents in question some have a digest and a length.
abbrev pub HasContent : Store → (List ℕ → Type 0) → String → ℕ → Type 0
HasContent env P digest size =
    (bytes : List ℕ) × P bytes × (env.hash bytes ≡ digest) × (length bytes ≡ size)

-- No two of the contents in question have one digest and differ in length.
abbrev pub IsCollisionFree : Store → (List ℕ → Type 0) → Type 0
IsCollisionFree env P = (a b : List ℕ) → P a → P b → env.hash a ≡ env.hash b → length a ≡ length b

-- Every regular file has the content that its name promises.
abbrev pub IsHonest : Store → (List ℕ → Type 0) → List StateFile → Type 0
IsHonest env P files =
    All (λ f. f.regular ≡ true → HasContent env P (last_part f.parts) f.size) files

same_parts_refl : (p : List String) → same_parts p p ≡ true
same_parts_refl [] = refl
same_parts_refl (a ∷ p) = ground (arith, (eq_iff a a).1 refl, same_parts_refl p)

-- A file of another path is found as before.
find_file-put_file :
    (p : List String) (g : StateFile) (files : List StateFile)
    → same_parts g.parts p ≡ false
    → find_file p (put_file g files) ≡ find_file p files
unfolding find_file put_file
find_file-put_file p g [] h = rw (find_file, h) refl
find_file-put_file p g (f ∷ files) h = elim (Bool-cases (same_parts f.parts g.parts)) [
  | inl e ↦
      rw (put_file, e)
        (rw
          (
            find_file,
            h,
            subst (λ q. same_parts q p ≡ false) (sym (same_parts-eq f.parts g.parts e)) h,
          )
          refl)
  | inr e ↦
      rw (put_file, e)
        (ap (λ r. elim (same_parts f.parts p) [ true ↦ some f | false ↦ r ])
          (find_file-put_file p g files h))
]

find_head :
    (p : List String) (g : StateFile) (files : List StateFile)
    → same_parts g.parts p ≡ true
    → find_file p (g ∷ files) ≡ some g
unfolding find_file
find_head p g files q = rw (find_file, q) refl

find_tail :
    (p : List String) (g : StateFile) (files : List StateFile)
    → same_parts g.parts p ≡ false
    → find_file p (g ∷ files) ≡ find_file p files
unfolding find_file
find_tail p g files q = rw (find_file, q) refl

-- A regular file that is found has the content that the path promises.
find_file-IsHonest :
    (env : Store) (P : List ℕ → Type 0) (p : List String) (f : StateFile) (files : List StateFile)
    → IsHonest env P files
    → find_file p files ≡ some f
    → f.regular ≡ true
    → HasContent env P (last_part p) f.size
unfolding find_file
find_file-IsHonest env P p f [] h e r = ground arith
find_file-IsHonest env P p f (g ∷ files) (h, hs) e r = elim (Bool-cases (same_parts g.parts p)) [
  | inl q ↦
      let same_file : g ≡ f = cc (sym (find_head p g files q) ∙ e) in
      subst (λ x. HasContent env P (last_part p) x.size) same_file
        (subst (λ x. HasContent env P (last_part x) g.size) (same_parts-eq g.parts p q)
          (h (subst (λ x. x.regular ≡ true) (sym same_file) r)))
  | inr q ↦ find_file-IsHonest env P p f files hs (sym (find_tail p g files q) ∙ e) r
]

regular_of-IsHonest :
    (env : Store) (P : List ℕ → Type 0) (p : List String) (n : ℕ) (files : List StateFile)
    (o : Option StateFile)
    → IsHonest env P files
    → find_file p files ≡ o
    → is_regular_of n o ≡ true
    → HasContent env P (last_part p) n
regular_of-IsHonest env P p n files none h e r = ground arith
regular_of-IsHonest env P p n files (some f) h e r =
    let b = both_true f.regular (f.size == n) r in
    subst (HasContent env P (last_part p)) (size_checked f.size n b.1)
      (find_file-IsHonest env P p f files h e b.0)
  where
    size_checked : (a b : ℕ) → (a == b) ≡ true → a ≡ b
    size_checked a b h = ground (arith, h)

has_blob-HasContent :
    (env : Store) (P : List ℕ → Type 0) (files : List StateFile) (owner digest : String) (n : ℕ)
    → IsHonest env P files
    → has_blob env.codec files owner digest n ≡ true
    → HasContent env P digest n
unfolding has_blob
has_blob-HasContent env P files owner digest n h e =
    regular_of-IsHonest env P (blob_path env.codec owner digest) n files _ h refl
      (both_true _ _ e).1

put_file-IsHonest :
    (env : Store) (P : List ℕ → Type 0) (g : StateFile) (files : List StateFile)
    → IsHonest env P files
    → HasContent env P (last_part g.parts) g.size
    → IsHonest env P (put_file g files)
unfolding put_file
put_file-IsHonest env P g [] h c = ((λ _. c), tt)
put_file-IsHonest env P g (f ∷ files) (h, hs) c = elim (Bool-cases (same_parts f.parts g.parts)) [
  | inl e ↦ rw (put_file, e) ((λ _. c), hs)
  | inr e ↦ rw (put_file, e) (h, put_file-IsHonest env P g files hs c)
]

-- Adding a blob that was not stored takes no other away.
has_blob-put_file :
    (c : Codec) (g : StateFile) (files : List StateFile) (owner digest : String) (n : ℕ)
    → same_parts g.parts (blob_path c owner digest) ≡ false
    → has_blob c files owner digest n ≡ true
    → has_blob c (put_file g files) owner digest n ≡ true
unfolding has_blob
has_blob-put_file c g files owner digest n q e =
    rw (has_blob, find_file-put_file (blob_path c owner digest) g files q) e

-- Two blobs of one path are one blob.
has_blob_same :
    (env : Store) (P : List ℕ → Type 0) (a : List StateFile) (owner other name digest : String)
    (size n : ℕ)
    → IsCollisionFree env P
    → IsHonest env P a
    → HasContent env P name size
    → valid_sha256 env.codec name ≡ true
    → blob_path env.codec owner name ≡ blob_path env.codec other digest
    → has_blob env.codec a other digest n ≡ true
    → has_blob env.codec a owner name size ≡ true
unfolding has_blob
has_blob_same env P a owner other name digest size n free honest content valid p e =
    let there = has_blob-HasContent env P a other digest n honest e in
    let lengths =
      free there.0 content.0 there.1 content.1 (there.2 ∙ sym (ap last_part p) ∙ sym content.2) in
    let sizes = sym there.3 ∙ lengths ∙ content.3 in
    rw (has_blob, valid)
      (subst (λ x. is_regular_of x (find_file (blob_path env.codec owner name) a) ≡ true) sizes
        (subst (λ x. is_regular_of n (find_file x a) ≡ true) (sym p) (both_true _ _ e).1))

pub has_blob-Added :
    (env : Store) (P : List ℕ → Type 0) (owner : String) (bytes : List ℕ) (a b : List StateFile)
    → P bytes
    → IsCollisionFree env P
    → IsHonest env P a
    → Added env owner bytes a b
    → (other digest : String) (n : ℕ) → has_blob env.codec a other digest n ≡ true
    → has_blob env.codec b other digest n ≡ true
has_blob-Added env P owner bytes a b known free honest added other digest n e =
    subst (λ l. has_blob env.codec l other digest n ≡ true) (sym added.blobs)
      (elim (Bool-cases
        (same_parts (blob_path env.codec owner added.digest) (blob_path env.codec other digest))) [
          | inr q ↦ has_blob-put_file env.codec _ a other digest n q e
          | inl q ↦ absurd (
              true≢false (
                sym (
                  has_blob_same env P a owner other added.digest digest added.size n free honest
                    (bytes, known, added.named, added.sized) added.valid (same_parts-eq _ _ q) e)
                ∙ added.absent))
        ])

pub Added-IsHonest :
    (env : Store) (P : List ℕ → Type 0) (owner : String) (bytes : List ℕ) (a b : List StateFile)
    → P bytes
    → IsHonest env P a
    → Added env owner bytes a b
    → IsHonest env P b
Added-IsHonest env P owner bytes a b known h added =
    subst (IsHonest env P) (sym added.blobs)
      (put_file-IsHonest env P _ a h (bytes, known, added.named, added.sized))

pub walk-IsHonest :
    (env : Store) (P : List ℕ → Type 0) (removal : List String → Option String)
    (verdict : StateFile → Verdict) (files : List StateFile)
    → IsHonest env P files
    → IsHonest env P (walk removal verdict files).1
unfolding walk
walk-IsHonest env P removal verdict [] h = tt
walk-IsHonest env P removal verdict (f ∷ files) (h, hs) =
    step (removal f.parts) (verdict f) (walk removal verdict files)
      (walk-IsHonest env P removal verdict files hs)
  where
    step :
        (o : Option String) (v : Verdict) (rest : Walked)
        → IsHonest env P rest.1
        → IsHonest env P (walk_file o v f files rest).1
    step o Verdict.leave rest r = (h, r)
    step o (Verdict.stop m) rest r = (h, hs)
    step (some m) Verdict.remove rest r = (h, hs)
    step none Verdict.remove rest r = r
