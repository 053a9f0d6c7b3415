-- ===== src/Project/Puts/Change.antt =====
-- What `PutBlob` changes: at most it adds one blob, with the content that its digest names.
use text.Mathlib.Text.{◌==◌ as same}
use text.Mathlib.TextEquality.{eq_iff}
use latexmk.Prelude.{
  ℕ, zero, suc, [], ◌∷◌, ◌≡◌, refl, ap, subst, String, Bool, true, false, not, Option, none, some,
  List, lookup, delete, Result, ok, err, ◌>>◌, refuse, passed, ltb, ◌==◌, if◌then◌else◌, length,
  take, arith, inl, inr, ◌⊎◌, Bool-cases,
}
use latexmk.Project.Names.{valid_sha256}
use latexmk.Project.State.{Upload, StateFile, Store, Sources}
use latexmk.Project.Publication.{StatePublication, Quota, stage_state, commit, close}
use latexmk.Project.Blobs.{find_file, put_file, blob_path, has_blob}
use latexmk.Project.Puts.{
  Body, Answers, max_int64, fail_with, copy_verified, staging_of, destination_of, closed, published,
  publish_blob, staged_blob, put_expected, put_in, put_blob,
}

-- A blob that was not stored, and its file.
pub record Added (env : Store) (owner : String) (bytes : List ℕ) (before after : List StateFile)
    : Type 0 where
  pub digest : String
  pub size : ℕ
  pub mod_time : ℕ
  pub absent : has_blob env.codec before owner digest size ≡ false
  pub valid : valid_sha256 env.codec digest ≡ true
  pub named : env.hash bytes ≡ digest
  pub sized : length bytes ≡ size
  pub blobs :
      after
      ≡ put_file
          (record {
            parts = blob_path env.codec owner digest;
            size = size;
            mod_time = mod_time;
            regular = true;
          })
          before

-- The snapshots and the pins stay, at most one session goes, and the blobs stay too or one is
-- added.
pub record Change (env : Store) (owner : String) (bytes : List ℕ) (a b : Sources) : Type 0 where
  pub snapshots : b.snapshots ≡ a.snapshots
  pub pins : b.pins ≡ a.pins
  pub sessions : (b.sessions ≡ a.sessions) ⊎ ((id : String) × (b.sessions ≡ delete id a.sessions))
  pub blobs : (b.blobs ≡ a.blobs) ⊎ Added env owner bytes a.blobs b.blobs

nothing : (env : Store) (owner : String) (bytes : List ℕ) (a : Sources) → Change env owner bytes a a
nothing env owner bytes a = record {
  snapshots = refl;
  pins = refl;
  sessions = inl refl;
  blobs = inl refl;
}

-- Behind a first part that succeeded.
sequel : (r : Result (Unit {0})) (s : Result (Unit {0})) → (r >> s) ≡ ok tt → s ≡ ok tt
sequel (ok u) s h = h
sequel (err e) s h = ground arith

length_checked : (n size : ℕ) → not (n == size) ≡ false → n ≡ size
length_checked n size h = ground (arith, h)

hash_checked : (b : Bool) (e : String) → refuse (not b) e ≡ ok tt → b ≡ true
hash_checked true e h = refl
hash_checked false e h = ground arith

-- What is read and is not longer than it should be is all there is.
take_whole : (n : ℕ) (bytes : List ℕ) → length (take (suc n) bytes) ≡ n → take (suc n) bytes ≡ bytes
take_whole n [] h = refl
take_whole zero (b ∷ bytes) h = ground arith
take_whole (suc n) (b ∷ bytes) h = ap (λ l. b ∷ l) (take_whole n bytes (omega (arith, h)))

copy_verified-content :
    (env : Store) (body : Body) (size : ℕ) (digest : String)
    → copy_verified env.hash body size digest ≡ ok tt
    → (env.hash body.bytes ≡ digest) × (length body.bytes ≡ size)
unfolding copy_verified
copy_verified-content env body size digest h =
    let read = take (suc size) body.bytes in
    let p = passed (size == max_int64) "invalid content size" _ tt h in
    let r =
      sequel (fail_with (if ltb size (length body.bytes) then none else body.failure)) _ p.1 in
    let l = passed (not (length read == size)) "content has another size" _ tt r in
    let n = length_checked (length read) size l.0 in
    subst (λ bytes. (env.hash bytes ≡ digest) × (length bytes ≡ size))
      (take_whole size body.bytes n)
      ((eq_iff (env.hash read) digest).0 (hash_checked (same (env.hash read) digest) _ l.1), n)

stage_state-copied :
    (pending_close root_close : Option String) (io : Answers) (size : ℕ)
    (copied : Result (Unit {0})) (q : Quota) (p : StatePublication)
    → (stage_state pending_close root_close size (staging_of io size copied) q).0 ≡ ok p
    → copied ≡ ok tt
unfolding stage_state
stage_state-copied pending_close root_close io size (ok u) q p h = refl
stage_state-copied pending_close root_close io size (err e) q p h = ground arith

requoted :
    (env : Store) (owner : String) (bytes : List ℕ) (a b : Sources) (q : Quota)
    → Change env owner bytes a b
    → Change env owner bytes a (record b { quota = q })
requoted env owner bytes a b q h = record {
  snapshots = h.snapshots;
  pins = h.pins;
  sessions = h.sessions;
  blobs = h.blobs;
}

closed-Change :
    (env : Store) (owner : String) (bytes : List ℕ) (a b : Sources) (io : Answers)
    (r : Result (Unit {0})) (left : Option String × StatePublication × Quota)
    → Change env owner bytes a b
    → Change env owner bytes a (closed io r left b).1
closed-Change env owner bytes a b io (err e) (o, p, q) h = requoted env owner bytes a b q h
closed-Change env owner bytes a b io (ok u) (some e, p, q) h = requoted env owner bytes a b q h
closed-Change env owner bytes a b io (ok u) (none, p, q) h = requoted env owner bytes a b q h

module _ (env : Store) (io : Answers) (owner digest : String) (size : ℕ)
    (valid : valid_sha256 env.codec digest ≡ true) (bytes : List ℕ)
    (named : env.hash bytes ≡ digest) (sized : length bytes ≡ size) where
  blob_of : StateFile
  blob_of = record {
    parts = blob_path env.codec owner digest;
    size = size;
    mod_time = io.mod_time;
    regular = true;
  }

  published-Change :
      (a : Sources) (r : Result (Unit {0}) × StatePublication × Quota)
      → has_blob env.codec a.blobs owner digest size ≡ false
      → Change env owner bytes a (published io blob_of r a).1
  unfolding blob_of
  published-Change a (err e, p, q) h =
      closed-Change env owner bytes a a io (err e) (close io.pending_close io.root_close p q)
        (nothing env owner bytes a)
  published-Change a (ok u, p, q) h =
      closed-Change env owner bytes a (record a { blobs = put_file blob_of a.blobs }) io (ok tt)
        (close io.pending_close io.root_close p q)
        record {
          snapshots = refl;
          pins = refl;
          sessions = inl refl;
          blobs = inr record {
            digest = digest;
            size = size;
            mod_time = io.mod_time;
            absent = h;
            valid = valid;
            named = named;
            sized = sized;
            blobs = refl;
          };
        }

  publish_blob-Change :
      (p : StatePublication) (a : Sources)
      → Change env owner bytes a (publish_blob env io owner digest size p a).1
  unfolding publish_blob blob_of
  publish_blob-Change p a = elim (Bool-cases (has_blob env.codec a.blobs owner digest size)) [
    | inl e ↦
        rw (publish_blob, e)
          (closed-Change env owner bytes a a io (ok tt)
            (close io.pending_close io.root_close p a.quota) (nothing env owner bytes a))
    | inr e ↦
        rw (publish_blob, e)
          (published-Change a
            (commit (destination_of (find_file (blob_path env.codec owner digest) a.blobs))
              io.renamed p a.quota)
            e)
  ]

back :
    (env : Store) (owner : String) (bytes : List ℕ) (a b : Sources) (q : Quota)
    → Change env owner bytes (record a { quota = q }) b
    → Change env owner bytes a b
back env owner bytes a b q h = record {
  snapshots = h.snapshots;
  pins = h.pins;
  sessions = h.sessions;
  blobs = h.blobs;
}

staged_blob-Change :
    (env : Store) (io : Answers) (bytes : List ℕ) (owner digest : String) (size : ℕ)
    (r : Result StatePublication × Quota) (a : Sources)
    → valid_sha256 env.codec digest ≡ true
    → ((p : StatePublication) → r.0 ≡ ok p → (env.hash bytes ≡ digest) × (length bytes ≡ size))
    → Change env owner bytes a (staged_blob env io owner digest size r a).1
staged_blob-Change env io bytes owner digest size (err e, q) a v c =
    requoted env owner bytes a a q (nothing env owner bytes a)
staged_blob-Change env io bytes owner digest size (ok p, q) a v c = back env owner bytes a _ q (
    publish_blob-Change env io owner digest size v bytes (c p refl).0 (c p refl).1 p
      (record a { quota = q }))

put_expected-Change :
    (env : Store) (io : Answers) (body : Body) (owner digest : String) (o : Option ℕ) (a : Sources)
    → Change env owner body.bytes a (put_expected env io body owner digest o a).1
put_expected-Change env io body owner digest none a = nothing env owner body.bytes a
put_expected-Change env io body owner digest (some size) a =
    elim (Bool-cases (valid_sha256 env.codec digest)) [
      | inr e ↦ rw e (nothing env owner body.bytes a)
      | inl e ↦ elim (Bool-cases (has_blob env.codec a.blobs owner digest size)) [
        | inl f ↦ rw (e, f) (nothing env owner body.bytes a)
        | inr f ↦
            rw (e, f)
              (staged_blob-Change env io body.bytes owner digest size
                (stage_state io.pending_close io.root_close size
                  (staging_of io size (copy_verified env.hash body size digest)) a.quota)
                a e
                (λ p h. copy_verified-content env body size digest (
                  stage_state-copied io.pending_close io.root_close io size
                    (copy_verified env.hash body size digest) a.quota p h)))
      ]
    ]

-- An upload of a blob changes no snapshot and no pin, drops one session at most, and of the blobs at most that it adds one: one
-- that was not stored, with a valid digest, and whose content, the bytes of the body, has the digest
-- and the size.
pub put_blob-Change :
    (env : Store) (io : Answers) (body : Body) (owner id digest : String) (now : ℕ) (a : Sources)
    → Change env owner body.bytes a (put_blob env io body owner id digest now a).1
unfolding put_blob
put_blob-Change env io body owner id digest now a = put_in-Change (lookup id a.sessions)
  where
    put_in-Change :
        (o : Option Upload)
        → Change env owner body.bytes a (put_in env io body owner id digest now o a).1
    put_in-Change none = nothing env owner body.bytes a
    put_in-Change (some u) = elim (Bool-cases (same u.owner_id owner)) [
      | inr e ↦ rw e (nothing env owner body.bytes a)
      | inl e ↦ elim (Bool-cases (ltb u.expires now)) [
        | inl f ↦
            rw (e, f)
              record { snapshots = refl; pins = refl; sessions = inr (id, refl); blobs = inl refl }
        | inr f ↦
            rw (e, f) (put_expected-Change env io body owner digest (lookup digest u.expected) a)
      ]
    ]
