-- ===== src/Project/Sweep/Kept.antt =====
-- What the sweeps of the state directory leave alone: the blobs of the snapshots, the pins and the
-- sessions that the store holds.
use text.Mathlib.Text.{◌==◌ as same}
use text.Mathlib.TextEquality.{eq_iff}
use mathlib.Core.Path.{ap₂}
use latexmk.Prelude.{
  ℕ, ◌≡◌, ◌≢◌, refl, sym, subst, ◌∙◌, String, String-discrete, Bool, true, ◌&&◌, Option, none, some,
  List, [], ◌∷◌, All, Map, lookup, put, lookup-put, lookup-put_self, arith, inl, inr, Bool-cases,
  if_neg,
}
use latexmk.Protocol.{ProjectFile}
use latexmk.Project.Names.{Codec, valid_sha256, owner_key, reference_key, fan_out}
use latexmk.Project.State.{StateFile}
use latexmk.Project.Blobs.{
  References, Verdict, Walked, same_parts, find_file, blob_path, has_blob, walk, walk_file,
  expired_verdict, unreferenced_verdict, add_expected_references, add_reference,
  add_file_references,
}

-- A walk leaves the file of a path, if it removes no file of that path.
find_file-walk_file :
    (o : Option String) (v : Verdict) (p : List String) (f : StateFile) (files : List StateFile)
    (rest : Walked)
    → (same_parts f.parts p ≡ true → v ≢ Verdict.remove)
    → find_file p rest.1 ≡ find_file p files
    → find_file p (walk_file o v f files rest).1 ≡ find_file p (f ∷ files)
unfolding find_file
find_file-walk_file o Verdict.leave p f files rest h ih = ground (arith, ih)
find_file-walk_file o (Verdict.stop m) p f files rest h ih = refl
find_file-walk_file (some m) Verdict.remove p f files rest h ih = refl
find_file-walk_file none Verdict.remove p f files rest h ih =
    elim (Bool-cases (same_parts f.parts p)) [
      | inl q ↦ absurd (h q refl)
      | inr q ↦ rw (find_file, q) ih
    ]

find_file-walk :
    (removal : List String → Option String) (verdict : StateFile → Verdict) (p : List String)
    (files : List StateFile)
    → ((f : StateFile) → same_parts f.parts p ≡ true → verdict f ≢ Verdict.remove)
    → find_file p (walk removal verdict files).1 ≡ find_file p files
unfolding walk
find_file-walk removal verdict p [] h = refl
find_file-walk removal verdict p (f ∷ files) h =
    find_file-walk_file (removal f.parts) (verdict f) p f files (walk removal verdict files) (h f)
      (find_file-walk removal verdict p files h)

pub both_true : (a b : Bool) → (a && b) ≡ true → (a ≡ true) × (b ≡ true)
both_true a b h = ground arith

pub same_parts-eq : (p q : List String) → same_parts p q ≡ true → p ≡ q
same_parts-eq [] [] h = refl
same_parts-eq [] (b ∷ q) h = ground arith
same_parts-eq (a ∷ p) [] h = ground arith
same_parts-eq (a ∷ p) (b ∷ q) h =
    let e = both_true (same a b) (same_parts p q) h in
    ap₂ (λ x xs. x ∷ xs) ((eq_iff a b).0 e.0) (same_parts-eq p q e.1)

-- A referenced blob is never removed.
abbrev pub Holds : References → String → Type 0
Holds refs key = lookup key refs ≡ some tt

pub Spares : (verdict : StateFile → Verdict) (p : List String) → Type 0
Spares verdict p = (f : StateFile) → f.parts ≡ p → verdict f ≢ Verdict.remove

Spares-same_parts :
    (verdict : StateFile → Verdict) (p : List String) (f : StateFile)
    → Spares verdict p
    → same_parts f.parts p ≡ true
    → verdict f ≢ Verdict.remove
unfolding Spares
Spares-same_parts verdict p f h e = h f (same_parts-eq f.parts p e)

pub expired_verdict-Spares :
    (c : Codec) (now retention : ℕ) (refs : References) (owner digest : String)
    → valid_sha256 c digest ≡ true
    → Holds refs (reference_key (owner_key c owner) digest)
    → Spares (expired_verdict c now retention (some refs)) (blob_path c owner digest)
unfolding Spares
expired_verdict-Spares c now retention refs owner digest v h f e =
    ground (arith, (eq_iff (fan_out digest) (fan_out digest)).1 refl, v, h, e)

pub unreferenced_verdict-Spares :
    (c : Codec) (refs : References) (owner digest : String)
    → valid_sha256 c digest ≡ true
    → Holds refs (reference_key (owner_key c owner) digest)
    → Spares (unreferenced_verdict c refs) (blob_path c owner digest)
unfolding Spares
unreferenced_verdict-Spares c refs owner digest v h f e =
    ground (arith, (eq_iff (fan_out digest) (fan_out digest)).1 refl, v, h, e)

pub has_blob-walk :
    (c : Codec) (removal : List String → Option String) (verdict : StateFile → Verdict)
    (files : List StateFile) (owner digest : String) (size : ℕ)
    → Spares verdict (blob_path c owner digest)
    → has_blob c files owner digest size ≡ true
    → has_blob c (walk removal verdict files).1 owner digest size ≡ true
unfolding has_blob
has_blob-walk c removal verdict files owner digest size h e =
    rw
      (
        has_blob,
        find_file-walk removal verdict (blob_path c owner digest) files
            (λ f. Spares-same_parts verdict (blob_path c owner digest) f h),
      )
      e

pub has_blob-valid_sha256 :
    (c : Codec) (files : List StateFile) (owner digest : String) (size : ℕ)
    → has_blob c files owner digest size ≡ true
    → valid_sha256 c digest ≡ true
unfolding has_blob
has_blob-valid_sha256 c files owner digest size h = (both_true _ _ h).0

Holds-put : (refs : References) (key k : String) → Holds refs key → Holds (put k tt refs) key
Holds-put refs key k h = ground (arith, h, lookup-put k key tt refs)

pub Holds-add_expected :
    (refs : References) (owner key : String) (expected : Map ℕ)
    → Holds refs key
    → Holds (add_expected_references refs owner expected) key
unfolding add_expected_references
Holds-add_expected refs owner key [] h = h
Holds-add_expected refs owner key ((d, n) ∷ expected) h =
    Holds-add_expected (put (reference_key owner d) tt refs) owner key expected
      (Holds-put refs key (reference_key owner d) h)

pub add_expected-Holds :
    (refs : References) (owner digest : String) (size : ℕ) (expected : Map ℕ)
    → lookup digest expected ≡ some size
    → Holds (add_expected_references refs owner expected) (reference_key owner digest)
unfolding add_expected_references lookup
add_expected-Holds refs owner digest size [] h = ground arith
add_expected-Holds refs owner digest size ((d, n) ∷ expected) h = elim (String-discrete d digest) [
  | yes e ↦
      Holds-add_expected (put (reference_key owner d) tt refs) owner (reference_key owner digest)
        expected
        (subst (λ k. Holds (put (reference_key owner k) tt refs) (reference_key owner digest))
          (sym e) (lookup-put_self (reference_key owner digest) tt refs))
  | no e ↦
      add_expected-Holds (put (reference_key owner d) tt refs) owner digest size expected
        (sym (if_neg (String-discrete d digest) e _ _) ∙ h)
]

Holds-add_reference :
    (c : Codec) (refs : References) (owner key : String) (f : ProjectFile)
    → Holds refs key
    → Holds (add_reference c refs owner f) key
Holds-add_reference c refs owner key f h =
    ground (arith, h, Holds-put refs key (reference_key owner f.sha256))

pub Holds-add_files :
    (c : Codec) (refs : References) (owner key : String) (files : List ProjectFile)
    → Holds refs key
    → Holds (add_file_references c refs owner files) key
unfolding add_file_references
Holds-add_files c refs owner key [] h = h
Holds-add_files c refs owner key (f ∷ files) h =
    Holds-add_files c (add_reference c refs owner f) owner key files
      (Holds-add_reference c refs owner key f h)

-- Every file of a manifest whose digest is valid is referenced.
abbrev pub Referenced : Codec → References → String → List ProjectFile → Type 0
Referenced c refs owner files =
    All (λ f. valid_sha256 c f.sha256 ≡ true → Holds refs (reference_key owner f.sha256)) files

pub add_files-Referenced :
    (c : Codec) (refs : References) (owner : String) (files : List ProjectFile)
    → Referenced c (add_file_references c refs owner files) owner files
unfolding add_file_references
add_files-Referenced c refs owner [] = tt
add_files-Referenced c refs owner (f ∷ files) = (
  λ v.
      Holds-add_files c (add_reference c refs owner f) owner (reference_key owner f.sha256) files
        (rw v (lookup-put_self (reference_key owner f.sha256) tt refs)),
  add_files-Referenced c (add_reference c refs owner f) owner files,
)
