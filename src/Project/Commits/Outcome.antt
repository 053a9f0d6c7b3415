-- ===== src/Project/Commits/Outcome.antt =====
-- What `Commit` leaves behind on every branch.
use text.Mathlib.Text.{◌==◌ as same}
use latexmk.Prelude.{
  ℕ, ◌≡◌, ◌≢◌, refl, sym, ap, ◌∙◌, subst, String, Bool, true, false, not, Option, none, some, Map,
  lookup, put, delete, lookup-put, lookup-put_self, lookup-delete, Result, ok, err, ltb,
  if◌then◌else◌, arith,
}
use latexmk.Protocol.{CompileRequest}
use latexmk.Project.Names.{snapshot_key}
use latexmk.Project.Pins.{Snapshot}
use latexmk.Project.State.{Upload, Store, Sources}
use latexmk.Project.Blobs.{has_blob}
use latexmk.Project.Snapshots.{new_snapshot}
use latexmk.Project.Commits.{
  not_found, begin_with, begin_commit, release, first_missing, refused, checked_snapshot, save,
  finish_with, continue_commit, commit, snapshot, stored_snapshot,
}

-- The session of an upload behind a call that fails: it goes where it has expired, and stays as it
-- was else.
abbrev pub unexpired : ℕ → Option Upload → Option Upload
unexpired now none = none
unexpired now (some u) = if ltb u.expires now then none else some u

pub record Refusal (id : String) (now : ℕ) (a b : Sources) : Type 0 where
  pub snapshots : b.snapshots ≡ a.snapshots
  pub pins : b.pins ≡ a.pins
  pub blobs : b.blobs ≡ a.blobs
  pub session : lookup id b.sessions ≡ unexpired now (lookup id a.sessions)
  pub others : (j : String) → id ≢ j → lookup j b.sessions ≡ lookup j a.sessions

pub record Success (env : Store) (owner id : String) (found : Snapshot) (request : CompileRequest)
    (a b : Sources) : Type 0 where
  pub upload : Upload
  pub planned : lookup id a.sessions ≡ some upload
  pub complete : first_missing (has_blob env.codec a.blobs owner) upload.expected ≡ none
  pub canonical : new_snapshot env owner upload.project_id upload.files ≡ ok found
  pub asked : request ≡ upload.request
  pub stored : snapshot owner upload.project_id b ≡ ok found
  pub at : ℕ
  pub entry :
      b.snapshots
      ≡ put
          (snapshot_key owner upload.project_id)
          (record { snapshot = found; updated_at = at })
          a.snapshots
  pub gone : lookup id b.sessions ≡ none
  pub pins : b.pins ≡ a.pins
  pub blobs : b.blobs ≡ a.blobs

abbrev pub Outcome :
    Store → String → String → ℕ → Sources → Result (Snapshot × CompileRequest) × Sources → Type 0
Outcome env owner id now a (ok (found, request), b) = Success env owner id found request a b
Outcome env owner id now a (err e, b) = Refusal id now a b

-- Where a session may be taken: it is there, unexpired, its owner's and not taken already.
record Taken (owner id : String) (now : ℕ) (u : Upload) (a b : Sources) : Type 0 where
  there : lookup id a.sessions ≡ some u
  alive : ltb u.expires now ≡ false
  owned : same u.owner_id owner ≡ true
  free : u.committing ≡ false
  state : b ≡ record a { sessions = put id (record u { committing = true }) a.sessions }

abbrev Began : String → String → ℕ → Sources → Result Upload × Sources → Type 0
Began owner id now a (ok u, b) = Taken owner id now u a b
Began owner id now a (err e, b) = Refusal id now a b

lookup_deleted : (id : String) (m : Map Upload) → lookup id (delete id m) ≡ none
lookup_deleted id m = ground (arith, lookup-delete id id m)

-- `begin_with` at a session that is there, with its three tests.
abbrev pub begun : String → Upload → Sources → Bool → Bool → Bool → Result Upload × Sources
begun id u a e o c =
    if e
    then (err not_found, record a { sessions = delete id a.sessions })
    else if not o
    then (err not_found, a)
    else if c
    then (err "upload session is already being committed", a)
    else (ok u, record a { sessions = put id (record u { committing = true }) a.sessions })

module _ (owner id : String) (now : ℕ) (u : Upload) (a : Sources)
    (there : lookup id a.sessions ≡ some u) where
  untouched : ltb u.expires now ≡ false → Refusal id now a a
  untouched e = record {
    snapshots = refl;
    pins = refl;
    blobs = refl;
    session = there ∙ sym (ap (unexpired now) there ∙ ap (λ b. if b then none else some u) e);
    others = λ j n. refl;
  }

  begun-Began :
      (e o c : Bool)
      → ltb u.expires now ≡ e
      → same u.owner_id owner ≡ o
      → u.committing ≡ c
      → Began owner id now a (begun id u a e o c)
  begun-Began true o c e p q = record {
    snapshots = refl;
    pins = refl;
    blobs = refl;
    session =
        lookup_deleted id a.sessions
        ∙ sym (ap (unexpired now) there ∙ ap (λ b. if b then none else some u) e);
    others = λ j n. ground (arith, n, lookup-delete id j a.sessions);
  }
  begun-Began false false c e p q = untouched e
  begun-Began false true true e p q = untouched e
  begun-Began false true false e p q = record {
    there = there;
    alive = e;
    owned = p;
    free = q;
    state = refl;
  }

begin_with-Began :
    (owner id : String) (now : ℕ) (o : Option Upload) (a : Sources)
    → lookup id a.sessions ≡ o
    → Began owner id now a (begin_with owner id now o a)
begin_with-Began owner id now none a h = record {
  snapshots = refl;
  pins = refl;
  blobs = refl;
  session = ground (arith, h);
  others = λ j n. refl;
}
begin_with-Began owner id now (some u) a h =
    begun-Began owner id now u a h (ltb u.expires now) (same u.owner_id owner) u.committing refl
      refl refl

-- A session with its mark, and a store in which it is taken.
abbrev marked : Bool → Upload → Upload
marked c u = record u { committing = c }

abbrev taken : String → Upload → Sources → Sources
taken id u a = record a { sessions = put id (marked true u) a.sessions }

released :
    (owner id : String) (u : Upload) (a : Sources)
    → same u.owner_id owner ≡ true
    → release owner id (taken id u a)
      ≡ record a { sessions = put id (marked false u) (put id (marked true u) a.sessions) }
unfolding release
released owner id u a o = rw (release, lookup-put_self id (marked true u) a.sessions, o) refl

unmarked : (u : Upload) → u.committing ≡ false → marked false u ≡ u
unmarked u h = ap (λ c. marked c u) (sym h)

-- Giving a taken session back.
release-Refusal :
    (owner id : String) (now : ℕ) (u : Upload) (a : Sources)
    → Taken owner id now u a (taken id u a)
    → Refusal id now a (release owner id (taken id u a))
release-Refusal owner id now u a t =
    subst (Refusal id now a) (sym (released owner id u a t.owned)) record {
      snapshots = refl;
      pins = refl;
      blobs = refl;
      session =
          lookup-put_self id (marked false u) (put id (marked true u) a.sessions)
          ∙ ap some (unmarked u t.free)
          ∙ sym (ap (unexpired now) t.there ∙ ap (λ b. if b then none else some u) t.alive);
      others = λ j n. ground (
        arith,
        n,
        lookup-put id j (marked false u) (put id (marked true u) a.sessions),
        lookup-put id j (marked true u) a.sessions,
      );
    }

refused_ok :
    (o : Option String) (r : Result Snapshot) (found : Snapshot)
    → refused o r ≡ ok found
    → (o ≡ none) × (r ≡ ok found)
refused_ok none r found h = (refl, h)
refused_ok (some d) r found h = ground arith

finish-Outcome :
    (env : Store) (owner id : String) (now later : ℕ) (u : Upload) (a : Sources)
    (r : Result Snapshot)
    → Taken owner id now u a (taken id u a)
    → checked_snapshot env owner u (taken id u a) ≡ r
    → Outcome env owner id now a (finish_with owner id later u r (taken id u a))
unfolding checked_snapshot save snapshot
finish-Outcome env owner id now later u a (err e) t h = release-Refusal owner id now u a t
finish-Outcome env owner id now later u a (ok found) t h =
    let c =
      refused_ok (first_missing (has_blob env.codec a.blobs owner) u.expected)
        (new_snapshot env owner u.project_id u.files) found h in
    let key = snapshot_key owner u.project_id in
    record {
      upload = u;
      planned = t.there;
      complete = c.0;
      canonical = c.1;
      asked = refl;
      stored =
          ap stored_snapshot
            (lookup-put_self key (record { snapshot = found; updated_at = later }) a.snapshots);
      at = later;
      entry = refl;
      gone = lookup_deleted id (put id (marked true u) a.sessions);
      pins = refl;
      blobs = refl;
    }

continue-Outcome :
    (env : Store) (owner id : String) (now later : ℕ) (a : Sources)
    (began : Result Upload × Sources)
    → Began owner id now a began
    → Outcome env owner id now a (continue_commit env owner id later began)
continue-Outcome env owner id now later a (err e, b) h = h
continue-Outcome env owner id now later a (ok u, b) h =
    subst (λ x. Outcome env owner id now a (continue_commit env owner id later (ok u, x)))
      (sym h.state)
      (finish-Outcome env owner id now later u a (checked_snapshot env owner u (taken id u a))
        (subst (Taken owner id now u a) h.state h) refl)

-- A commit that succeeds found every expected digest stored, stores the snapshot of the session's
-- manifest, which `Snapshot` gives from then on, answers with the session's request, drops the
-- session, and changes no other snapshot, no pin and no blob. One that fails changes no snapshot, no pin,
-- no blob and no other session: its own session goes if it has expired, and is as it was if not.
pub commit-Outcome :
    (env : Store) (owner id : String) (now later : ℕ) (a : Sources)
    → Outcome env owner id now a (commit env owner id now later a)
unfolding commit begin_commit
commit-Outcome env owner id now later a =
    continue-Outcome env owner id now later a (begin_commit owner id now a)
      (begin_with-Began owner id now (lookup id a.sessions) a refl)
