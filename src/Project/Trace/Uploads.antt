-- ===== src/Project/Trace/Uploads.antt =====
-- What uploads and commits leave of the snapshots and the blobs.
use latexmk.Prelude.{
  ℕ, ◌≡◌, refl, sym, ap, ◌∙◌, subst, String, String-discrete, Bool, true, false, Option, none, some,
  List, [], ◌∷◌, All, Map, lookup, put, lookup-put, Distinct, put-Distinct, Result, ok, err, arith,
  inl, inr, ite, if_pos, if_neg, if◌then◌else◌, Values, Values-lookup, Values-delete, All-Perm,
}
use latexmk.Protocol.{ProjectFile, CompileRequest}
use latexmk.Project.Names.{Codec, snapshot_key}
use latexmk.Project.Pins.{Snapshot}
use latexmk.Project.State.{StoredSnapshot, StateFile, Store, Sources, empty}
use latexmk.Project.Blobs.{has_blob}
use latexmk.Project.Snapshots.{path_of}
use latexmk.Project.Snapshots.Canonical.{new_snapshot-IsCanonical, new_snapshot-owner_id}
use latexmk.Project.Puts.Change.{Change}
use latexmk.Project.Commits.{first_missing, commit}
use latexmk.Project.Commits.Outcome.{Outcome, Success, commit-Outcome}
use latexmk.Project.Sweep.Spared.{HasFiles}
use latexmk.Project.Trace.Blobs.{IsCollisionFree, IsHonest, has_blob-Added, Added-IsHonest}
use latexmk.Project.Trace.Sessions.{IsSized, Sized, commit-Sized}

-- The blobs are what their digests say, the sessions expect the sizes of their manifests, no
-- snapshot stands twice, and every file of every stored snapshot is stored.
pub record Whole (env : Store) (P : List ℕ → Type 0) (s : Sources) : Type 0 where
  pub honest : IsHonest env P s.blobs
  pub sized : Sized s
  pub distinct : Distinct s.snapshots
  pub complete :
      (key : String) (st : StoredSnapshot)
      → lookup key s.snapshots ≡ some st
      → HasFiles env.codec s.blobs st.snapshot

pub empty-Whole : (env : Store) (P : List ℕ → Type 0) (max : ℕ) → Whole env P (empty max)
unfolding empty lookup
empty-Whole env P max = record {
  honest = tt;
  sized = tt;
  distinct = tt;
  complete = λ key st e. ground (arith, e);
}

-- A step that changes neither the snapshots nor the blobs.
pub kept_Whole :
    (env : Store) (P : List ℕ → Type 0) (a b : Sources)
    → b.blobs ≡ a.blobs
    → b.snapshots ≡ a.snapshots
    → Sized b
    → Whole env P a
    → Whole env P b
kept_Whole env P a b p q z h = record {
  honest = subst (IsHonest env P) (sym p) h.honest;
  sized = z;
  distinct = subst Distinct (sym q) h.distinct;
  complete = λ key st e.
      subst (λ l. HasFiles env.codec l st.snapshot) (sym p)
        (h.complete key st (subst (λ m. lookup key m ≡ some st) q e));
}

HasFiles_mono :
    (c : Codec) (a b : List StateFile) (owner : String) (files : List ProjectFile)
    → ((digest : String) (n : ℕ)
        → has_blob c a owner digest n ≡ true
        → has_blob c b owner digest n ≡ true)
    → All (λ f. has_blob c a owner f.sha256 f.size ≡ true) files
    → All (λ f. has_blob c b owner f.sha256 f.size ≡ true) files
HasFiles_mono c a b owner [] k h = tt
HasFiles_mono c a b owner (f ∷ files) k (h, hs) =
    (k f.sha256 f.size h, HasFiles_mono c a b owner files k hs)

put_blob-Sized :
    (env : Store) (owner : String) (bytes : List ℕ) (a b : Sources)
    → Change env owner bytes a b
    → Sized a
    → Sized b
put_blob-Sized env owner bytes a b c h = elim c.sessions [
  | inl e ↦ subst (Values IsSized) (sym e) h
  | inr (id, e) ↦ subst (Values IsSized) (sym e) (Values-delete IsSized id a.sessions h)
]

pub put_blob-Whole :
    (env : Store) (P : List ℕ → Type 0) (owner : String) (bytes : List ℕ) (a b : Sources)
    → P bytes
    → IsCollisionFree env P
    → Change env owner bytes a b
    → Whole env P a
    → Whole env P b
put_blob-Whole env P owner bytes a b known free c h = elim c.blobs [
  | inl e ↦ kept_Whole env P a b e c.snapshots (put_blob-Sized env owner bytes a b c h.sized) h
  | inr added ↦ record {
    honest = Added-IsHonest env P owner bytes a.blobs b.blobs known h.honest added;
    sized = put_blob-Sized env owner bytes a b c h.sized;
    distinct = subst Distinct (sym c.snapshots) h.distinct;
    complete = λ key st e.
        HasFiles_mono env.codec a.blobs b.blobs st.snapshot.owner_id st.snapshot.files
          (has_blob-Added env P owner bytes a.blobs b.blobs known free h.honest added
            st.snapshot.owner_id)
          (h.complete key st (subst (λ m. lookup key m ≡ some st) c.snapshots e));
  }
]

-- What is expected is stored, so the files are.
stored_at :
    (stored : String → ℕ → Bool) (expected : Map ℕ) (d : String) (n : ℕ)
    → first_missing stored expected ≡ none
    → lookup d expected ≡ some n
    → stored d n ≡ true
unfolding first_missing lookup
stored_at stored [] d n h e = ground arith
stored_at stored ((k, size) ∷ expected) d n h e =
    let p = not_refused (stored k size) (first_missing stored expected) k h in
    elim (String-discrete k d) [
      | yes q ↦
          subst (λ x. stored x n ≡ true) q
            (subst (λ x. stored k x ≡ true) (cc (sym (if_pos (String-discrete k d) q _ _) ∙ e)) p.0)
      | no q ↦ stored_at stored expected d n p.1 (sym (if_neg (String-discrete k d) q _ _) ∙ e)
    ]
  where
    not_refused :
        (b : Bool) (o : Option String) (x : String)
        → (if b then o else some x) ≡ none
        → (b ≡ true) × (o ≡ none)
    not_refused true o x h = (refl, h)
    not_refused false o x h = ground arith

All-stored :
    (stored : String → ℕ → Bool) (expected : Map ℕ) (files : List ProjectFile)
    → first_missing stored expected ≡ none
    → All (λ f. lookup f.sha256 expected ≡ some f.size) files
    → All (λ f. stored f.sha256 f.size ≡ true) files
All-stored stored expected [] h z = tt
All-stored stored expected (f ∷ files) h (z, zs) =
    (stored_at stored expected f.sha256 f.size h z, All-stored stored expected files h zs)

abbrev entry_of : Snapshot → ℕ → StoredSnapshot
entry_of found at = record { snapshot = found; updated_at = at }

pub commit-Whole :
    (env : Store) (P : List ℕ → Type 0) (owner id : String) (now later : ℕ) (a : Sources)
    → Whole env P a
    → Whole env P (commit env owner id now later a).1
commit-Whole env P owner id now later a h =
    ended (commit env owner id now later a) (commit-Outcome env owner id now later a)
      (commit-Sized env owner id now later a h.sized)
  where
    saved :
        (found : Snapshot) (request : CompileRequest) (b : Sources)
        → Success env owner id found request a b
        → HasFiles env.codec b.blobs found
    saved found request b o =
        let sizes = Values-lookup IsSized id o.upload a.sessions h.sized o.planned in
        let files =
          All-stored (has_blob env.codec a.blobs owner) o.upload.expected o.upload.files o.complete
            sizes in
        let perm =
          (new_snapshot-IsCanonical env owner o.upload.project_id o.upload.files found
            o.canonical).0 in
        subst (λ l. HasFiles env.codec l found) (sym o.blobs)
          (subst (λ x. All (λ f. has_blob env.codec a.blobs x f.sha256 f.size ≡ true) found.files)
            (sym (
              new_snapshot-owner_id env owner o.upload.project_id o.upload.files found o.canonical))
            (All-Perm path_of (λ f. has_blob env.codec a.blobs owner f.sha256 f.size ≡ true) perm
              files))

    written :
        (v : StoredSnapshot) (k key : String) (b : Sources)
        → b.snapshots ≡ put k v a.snapshots
        → lookup key b.snapshots ≡ ite (String-discrete k key) (some v) (lookup key a.snapshots)
    written v k key b p = ap (lookup key) p ∙ lookup-put k key v a.snapshots

    ended :
        (r : Result (Snapshot × CompileRequest) × Sources)
        → Outcome env owner id now a r
        → Sized r.1
        → Whole env P r.1
    ended (err e, b) o z = kept_Whole env P a b o.blobs o.snapshots z h
    ended (ok (found, request), b) o z = record {
      honest = subst (IsHonest env P) (sym o.blobs) h.honest;
      sized = z;
      distinct = subst Distinct (sym o.entry) (put-Distinct _ _ a.snapshots h.distinct);
      complete = λ key st e. elim (String-discrete (snapshot_key owner o.upload.project_id) key) [
        | yes q ↦
            let named : entry_of found o.at ≡ st = cc (
              sym (if_pos (String-discrete (snapshot_key owner o.upload.project_id) key) q _ _)
              ∙ sym (
                  written (entry_of found o.at) (snapshot_key owner o.upload.project_id) key b
                    o.entry)
              ∙ e) in
            subst (λ (x : StoredSnapshot). HasFiles env.codec b.blobs x.snapshot) named
              (saved found request b o)
        | no q ↦
            subst (λ l. HasFiles env.codec l st.snapshot) (sym o.blobs)
              (h.complete key st (
                sym (if_neg (String-discrete (snapshot_key owner o.upload.project_id) key) q _ _)
                ∙ sym (
                    written (entry_of found o.at) (snapshot_key owner o.upload.project_id) key b
                      o.entry)
                ∙ e))
      ];
    }
