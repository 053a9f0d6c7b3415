-- ===== src/Project/Uploads/Completion.antt =====
-- An upload that brings what `Plan` listed as missing can be committed.
use text.Mathlib.TextEquality.{eq_iff}
use mathlib.Core.List.{Permᴰ as Perm}
use latexmk.Prelude.{
  ℕ, ◌+◌, ◌-◌, ◌≤◌, ◌≡◌, refl, sym, ap, ◌∙◌, subst, String, String-discrete, Bool, true, false, not,
  ◌&&◌, none, some, List, [], ◌∷◌, All, Map, lookup, put, lookup-put_self, Result, ok, passed, ltb,
  arith, ◌⊎◌, inl, inr, bound, if_pos, if_neg, sort_by, sort_by_perm, if◌then◌else◌,
}
use latexmk.Protocol.{ProjectFile, UploadPlanRequest, UploadPlan}
use latexmk.Project.Names.{valid_project_path, valid_sha256}
use latexmk.Project.Pins.{Snapshot}
use latexmk.Project.State.{Upload, Store, Sources, upload_lifetime}
use latexmk.Project.Blobs.{has_blob}
use latexmk.Project.Snapshots.{path_of, identified}
use latexmk.Project.Snapshots.Canonical.{new_snapshot_ok}
use latexmk.Project.Commits.{begin_commit, first_missing, checked_snapshot, commit}
use latexmk.Project.Uploads.{has, differs, plan_files, missing_digests, plan, swept, text_of}
use latexmk.Project.Uploads.Planning.{
  Opened, plan-Opened, accept_manifest-AcceptedManifest, accept_manifest-plan_files,
}

-- A text is among some.
abbrev pub Listed : String → List String → Type 0
Listed d [] = ⊥
Listed d (e ∷ ds) = (d ≡ e) ⊎ Listed d ds

Listed-Perm : (d : String) {xs ys : List String} → Perm xs ys → Listed d xs → Listed d ys
Listed-Perm d Perm.nil h = h
Listed-Perm d (Perm.cons e p) (inl q) = inl (q ∙ e)
Listed-Perm d (Perm.cons e p) (inr h) = inr (Listed-Perm d p h)
Listed-Perm d (Perm.swap e f) (inl q) = inr (inl (q ∙ e))
Listed-Perm d (Perm.swap e f) (inr (inl q)) = inl (q ∙ f)
Listed-Perm d (Perm.swap e f) (inr (inr h)) = inr (inr h)
Listed-Perm d (Perm.trans p q) h = Listed-Perm d q (Listed-Perm d p h)

-- An expected digest is stored, or it is listed as missing.
Listed-step :
    (d e : String) (b : Bool) (n : ℕ) (ms : List String) (stored : String → ℕ → Bool)
    → stored e n ≡ b
    → (e ≡ d)
    → (stored d n ≡ true) ⊎ Listed d (if b then ms else e ∷ ms)
Listed-step d e true n ms stored h p = inl (subst (λ x. stored x n ≡ true) p h)
Listed-step d e false n ms stored h p = inr (inl (sym p))

Listed-later :
    (d e : String) (b : Bool) (ms : List String) → Listed d ms → Listed d (if b then ms else e ∷ ms)
Listed-later d e true ms h = h
Listed-later d e false ms h = inr h

missing_digests-Listed :
    (env : Store) (stored : String → ℕ → Bool) (expected : Map ℕ) (ms : List String) (d : String)
    (n : ℕ)
    → missing_digests env stored expected ≡ ok ms
    → lookup d expected ≡ some n
    → (stored d n ≡ true) ⊎ Listed d ms
unfolding missing_digests lookup
missing_digests-Listed env stored [] ms d n h e = ground arith
missing_digests-Listed env stored ((k, size) ∷ expected) ms d n h e =
    let p =
      passed (ltb 0 env.max_upload_bytes && ltb env.max_upload_bytes size)
        "file exceeds the per-blob upload limit" _ ms h in
    let r =
      bound (missing_digests env stored expected)
        (λ missing. ok (if stored k size then missing else k ∷ missing)) ms p.1 in
    elim (String-discrete k d) [
      | yes q ↦
          subst (λ l. (stored d n ≡ true) ⊎ Listed d l) (cc r.2)
            (Listed-step d k (stored k size) n r.0 stored
              (ap (stored k) (cc (sym e ∙ if_pos (String-discrete k d) q _ _))) q)
      | no q ↦ later r (
          missing_digests-Listed env stored expected r.0 d n r.1
            (sym (if_neg (String-discrete k d) q _ _) ∙ e))
    ]
  where
    later :
        (r : (a : List String) × (missing_digests env stored expected ≡ ok a)
          × (ok (if stored k size then a else k ∷ a) ≡ ok ms))
        → (stored d n ≡ true) ⊎ Listed d r.0
        → (stored d n ≡ true) ⊎ Listed d ms
    later r (inl h) = inl h
    later r (inr h) = inr (subst (Listed d) (cc r.2) (Listed-later d k (stored k size) r.0 h))

-- Every expected size is that of a file.
All-put :
    (Q : String → ℕ → Type 0) (k : String) (v : ℕ) (m : Map ℕ)
    → All (λ e. Q e.0 e.1) m
    → Q k v
    → All (λ e. Q e.0 e.1) (put k v m)
unfolding put
All-put Q k v [] h q = (q, tt)
All-put Q k v ((j, w) ∷ m) (h, hs) q = elim (String-discrete j k) [
  | yes e ↦ rw (put, if_pos (String-discrete j k) e) (q, hs)
  | no e ↦ rw (put, if_neg (String-discrete j k) e) (h, All-put Q k v m hs q)
]

plan_files-All :
    (Q : String → ℕ → Type 0) (env : Store) (files : List ProjectFile) (paths : Map (Unit {0}))
    (expected : Map ℕ) (total : ℕ) (out : Map ℕ)
    → plan_files env files paths expected total ≡ ok out
    → All (λ e. Q e.0 e.1) expected
    → All (λ f. Q f.sha256 f.size) files
    → All (λ e. Q e.0 e.1) out
unfolding plan_files
plan_files-All Q env [] paths expected total out h a q = subst (All (λ e. Q e.0 e.1)) (cc h) a
plan_files-All Q env (f ∷ files) paths expected total out h a (q, qs) =
    let p = passed (not (valid_project_path env.codec f.path)) "invalid project path" _ out h in
    let s = passed (has (lookup f.path paths)) "duplicate project path" _ out p.1 in
    let v = passed (not (valid_sha256 env.codec f.sha256)) "invalid manifest entry" _ out s.1 in
    let d =
      passed (differs f.size (lookup f.sha256 expected)) "inconsistent size for digest" _ out v.1 in
    let l =
      passed (ltb (env.max_expanded_bytes - total) f.size) "project expands beyond the limit" _ out
        d.1 in
    plan_files-All Q env files (put f.path tt paths) (put f.sha256 f.size expected) (total + f.size)
      out l.1 (All-put Q f.sha256 f.size expected a q) qs

first_missing-none :
    (stored : String → ℕ → Bool) (expected : Map ℕ)
    → All (λ e. stored e.0 e.1 ≡ true) expected
    → first_missing stored expected ≡ none
unfolding first_missing
first_missing-none stored [] h = refl
first_missing-none stored ((d, n) ∷ expected) (h, hs) =
    rw (first_missing, h) (first_missing-none stored expected hs)

later_than : (a b : ℕ) → b ≤ a → ltb a b ≡ false
later_than a b h = ground arith

-- What `Commit` answers for a session that it may take and whose checks pass.
commit_ok :
    (env : Store) (owner id : String) (now later : ℕ) (u : Upload) (t : Sources) (found : Snapshot)
    → lookup id t.sessions ≡ some u
    → ltb u.expires now ≡ false
    → u.owner_id ≡ owner
    → u.committing ≡ false
    → checked_snapshot env owner u t ≡ ok found
    → (commit env owner id now later t).0 ≡ ok (found, u.request)
unfolding commit begin_commit checked_snapshot
commit_ok env owner id now later u t found l e o c h =
    rw (commit, begin_commit, l, e, (eq_iff u.owner_id owner).1 o, c, h) refl

module _ (env : Store) (owner : String) (request : UploadPlanRequest) (now : ℕ) (p : UploadPlan)
    (before : Sources) where
  -- The session of a plan.
  abbrev session_of : Map ℕ → String → Upload
  session_of expected id = record {
    id = id;
    owner_id = owner;
    project_id = request.project_id;
    request = request.request;
    files = request.files;
    expected = expected;
    expires = now + upload_lifetime;
    committing = false;
  }

  abbrev plan_of : String → List String → UploadPlan
  plan_of id ms = record {
    upload_id = id;
    missing = sort_by text_of ms;
    expires_at = now + upload_lifetime;
  }

  All-stored :
      (stored later : String → ℕ → Bool) (expected : Map ℕ) (ms : List String)
      (files : List ProjectFile)
      → missing_digests env stored expected ≡ ok ms
      → ((d : String) (n : ℕ) → stored d n ≡ true → later d n ≡ true)
      → All (λ f. lookup f.sha256 expected ≡ some f.size) files
      → All (λ f. Listed f.sha256 (sort_by text_of ms) → later f.sha256 f.size ≡ true) files
      → All (λ f. later f.sha256 f.size ≡ true) files
  All-stored stored later expected ms [] m keeps sized uploaded = tt
  All-stored stored later expected ms (f ∷ files) m keeps (s, ss) (u, us) = (
    elim (missing_digests-Listed env stored expected ms f.sha256 f.size m s) [
      | inl h ↦ keeps f.sha256 f.size h
      | inr h ↦ u (Listed-Perm f.sha256 (sort_by_perm text_of ms) h)
    ],
    All-stored stored later expected ms files m keeps ss us,
  )

  commit_of-Opened :
      (id : Result String)
      (o : Opened env owner request now p before (plan env owner request id now before))
      (t : Sources) (at later : ℕ)
      → lookup o.id t.sessions ≡ some (session_of o.expected o.id)
      → ltb (now + upload_lifetime) at ≡ false
      → ((d : String) (n : ℕ)
          → has_blob env.codec before.blobs owner d n ≡ true
          → has_blob env.codec t.blobs owner d n ≡ true)
      → All
          (λ f.
            Listed f.sha256 (sort_by text_of o.missing)
            → has_blob env.codec t.blobs owner f.sha256 f.size ≡ true)
          request.files
      → (commit env owner o.id at later t).0
        ≡ ok (
          identified env owner request.project_id (sort_by path_of request.files),
          request.request,
        )
  unfolding checked_snapshot
  commit_of-Opened id o t at later l e keeps uploaded =
      let a = accept_manifest-AcceptedManifest env owner request o.expected o.accepted in
      let stored =
        All-stored (has_blob env.codec before.blobs owner) (has_blob env.codec t.blobs owner)
          o.expected o.missing request.files o.found keeps a.sized uploaded in
      let entries =
        plan_files-All (λ d n. has_blob env.codec t.blobs owner d n ≡ true) env request.files [] []
          0 o.expected (accept_manifest-plan_files env owner request o.expected o.accepted) tt
          stored in
      commit_ok env owner o.id at later (session_of o.expected o.id) t
        (identified env owner request.project_id (sort_by path_of request.files)) l e refl refl
        (rw
          (
            checked_snapshot,
            first_missing-none (has_blob env.codec t.blobs owner) o.expected entries,
          )
          (new_snapshot_ok env owner request.project_id request.files a.owned a.named a.some_file
            a.apart a.valid))

  -- Where a plan succeeds, and later its session is still as the plan left it, it has not
  -- expired, what was stored is still stored, and every file of the manifest whose digest the plan
  -- lists as missing is stored with its size, then `Commit` succeeds: it gives the snapshot of the
  -- manifest's files, in the order of their paths, and the request of the plan.
  pub commit-plan :
      (id : Result String)
      → (plan env owner request id now before).0 ≡ ok p
      → (t : Sources) (at later : ℕ)
      → lookup p.upload_id t.sessions
        ≡ lookup p.upload_id (plan env owner request id now before).1.sessions
      → at ≤ p.expires_at
      → ((d : String) (n : ℕ)
          → has_blob env.codec before.blobs owner d n ≡ true
          → has_blob env.codec t.blobs owner d n ≡ true)
      → All
          (λ f. Listed f.sha256 p.missing → has_blob env.codec t.blobs owner f.sha256 f.size ≡ true)
          request.files
      → (commit env owner p.upload_id at later t).0
        ≡ ok (
          identified env owner request.project_id (sort_by path_of request.files),
          request.request,
        )
  commit-plan id h t at later l e keeps uploaded =
      let o = plan-Opened env owner request now p before id h in
      let q : plan_of o.id o.missing ≡ p = cc o.planned in
      let name : o.id ≡ p.upload_id = ap (λ x. x.upload_id) q in
      let expiry : now + upload_lifetime ≡ p.expires_at = ap (λ x. x.expires_at) q in
      subst
        (λ x.
          (commit env owner x at later t).0
          ≡ ok (
            identified env owner request.project_id (sort_by path_of request.files),
            request.request,
          ))
        name
        (commit_of-Opened id o t at later
          (subst
              (λ x.
                lookup x t.sessions ≡ lookup x (plan env owner request id now before).1.sessions)
              (sym name) l
            ∙ ap (λ a. lookup o.id a.1.sessions) o.ended
            ∙ lookup-put_self o.id (session_of o.expected o.id) (swept now before).sessions)
          (later_than (now + upload_lifetime) at (subst (λ x. at ≤ x) (sym expiry) e)) keeps
          (subst
            (λ ms.
              All
                (λ f. Listed f.sha256 ms → has_blob env.codec t.blobs owner f.sha256 f.size ≡ true)
                request.files)
            (sym (ap (λ x. x.missing) q)) uploaded))
