-- ===== src/Jobs/Submit/Refused.antt =====
-- What a refused revision leaves as it was (`SubmitRevision` of
-- packages/server/internal/jobs/sessions.go).
use latexmk.Prelude.{
  ℕ, ◌≡◌, refl, ◌∙◌, String, Bool, true, false, Option, none, some, lookup, Result, ok, err, arith,
}
use latexmk.Protocol.{CompileRequest, RevisionRequest}
use latexmk.Project.Pins.{Snapshot, pin_snapshot}
use latexmk.Jobs.State.{Record, Env, Manager, LiveSession, RevisionReceipt}
use latexmk.Jobs.History.{index_history}
use latexmk.Jobs.Store.{load, save, transition, cancel, end_publication, release}
use latexmk.Jobs.Submit.{
  submit_revision, submit_new, submit_to, store_revision, admit_revision, prepare_upload,
  allow_revision, supersede, pin_for_session,
}
use latexmk.Jobs.Exec.{Exec, pure, modify, continue, ◌>>=◌}
use latexmk.Jobs.Exec.Respects.{
  Respects, Respects-fail_if, Respects-gets, Respects-lift, Closed, respects_rules,
}

-- The sessions, the queue and the uploads stay.
pub record Same (a b : Manager) : Type 0 where
  pub sessions : b.sessions ≡ a.sessions
  pub queue : b.queue ≡ a.queue
  pub uploads : b.uploads ≡ a.uploads

Same-Closed : Closed Same
Same-Closed = record {
  stays = λ m. record { sessions = refl; queue = refl; uploads = refl };
  joins = λ a b c p q. record {
    sessions = q.sessions ∙ p.sessions;
    queue = q.queue ∙ p.queue;
    uploads = q.uploads ∙ p.uploads;
  };
}

save-Same : (r : Record) → Respects Same (save r)
unfolding save index_history
save-Same r = record {
  at = λ m. record { sessions = ground arith; queue = ground arith; uploads = ground arith };
}

release-Same : (id : String) (m : Manager) → Same m (release id m)
release-Same id m = record { sessions = refl; queue = refl; uploads = refl }

cancel-Same : (id message : String) (now : ℕ) (m : Manager) → Same m (cancel id message now m).1
unfolding cancel load transition end_publication
cancel-Same id message now m = record {
  sessions = ground arith;
  queue = ground arith;
  uploads = ground arith;
}

allow_revision-Same :
    (env : Env) (owner : String) (now : ℕ)
    → Respects Same (λ m. let p = allow_revision env owner now m in (ok p.0, p.1))
unfolding allow_revision
allow_revision-Same env owner now = record {
  at = λ m. record { sessions = ground arith; queue = ground arith; uploads = ground arith };
}

prepare_upload-Same :
    (env : Env) (owner id : String) (now : ℕ) → Respects Same (prepare_upload env owner id now)
unfolding prepare_upload
prepare_upload-Same env owner id now = search (respects_rules, Same-Closed) depth 20

store_revision-Same :
    (env : Env) (now : ℕ) (random : Result String) (owner : String) (s : LiveSession)
    (snapshot : Snapshot) (request : CompileRequest)
    → Respects Same (store_revision env now random owner s snapshot request)
unfolding store_revision
store_revision-Same env now random owner s snapshot request =
    search (respects_rules, Same-Closed, save-Same, release-Same) depth 30

supersede-Same : (s : LiveSession) (r : Record) (now : ℕ) → Respects Same (supersede s r now)
supersede-Same s r now = record {
  at = λ m.
      let p = cancel s.state.pending_job_id "superseded by a newer session revision" now m in
      let q = cancel r.job.id "session admission failed" now p.1 in
      let first =
        cancel-Same s.state.pending_job_id "superseded by a newer session revision" now m in
      let second = cancel-Same r.job.id "session admission failed" now p.1 in
      ground (arith, Same-Closed.stays m, first, Same-Closed.joins m p.1 q.1 first second);
}

pin_for_session-Same :
    (env : Env) (r : Record) (now : ℕ) → Respects Same (pin_for_session env r now)
pin_for_session-Same env r now = record {
  at = λ m.
      let pinned : Same m (record m { pins = pin_snapshot r.snapshot m.pins }) = record {
        sessions = refl;
        queue = refl;
        uploads = refl;
      } in
      ground (arith, cancel-Same r.job.id "session snapshot pin failed" now m, pinned);
}

-- What stays where an action fails: the sessions, the queue and the uploads.
abbrev pub KeptBy {ℓ} : {A : Type ℓ} → Manager → Result A × Manager → Type 0
KeptBy m (ok a, m') = Unit {0}
KeptBy m (err e, m') = Same m m'

pub record Refuses {ℓ} {A : Type ℓ} (x : Exec A) : Type 0 where
  pub at : (m : Manager) → KeptBy m (x m)

abbrev is_ok {ℓ} : {A : Type ℓ} → Result A → Bool
is_ok (ok a) = true
is_ok (err e) = false

record Succeeds {ℓ} {A : Type ℓ} (x : Exec A) : Type 0 where
  at : (m : Manager) → is_ok (x m).0 ≡ true

Succeeds-pure {ℓ} : {A : Type ℓ} (a : A) → Succeeds (pure a)
unfolding pure
Succeeds-pure a = record { at = λ m. refl }

Succeeds-modify {ℓ} :
    {A : Type ℓ} (f : Manager → Manager) (y : Exec A) → Succeeds y → Succeeds (modify f >>= λ _. y)
unfolding modify ◌>>=◌
Succeeds-modify f y h = record { at = λ m. h.at (f m) }

kept_ok {ℓ} : {A : Type ℓ} (m : Manager) (p : Result A × Manager) → is_ok p.0 ≡ true → KeptBy m p
kept_ok m (ok a, m') h = tt
kept_ok m (err e, m') h = absurd (ground arith)

Succeeds-Refuses {ℓ} : {A : Type ℓ} (x : Exec A) → Succeeds x → Refuses x
Succeeds-Refuses x h = record { at = λ m. kept_ok m (x m) (h.at m) }

kept-Same {ℓ} : {A : Type ℓ} (m : Manager) (p : Result A × Manager) → Same m p.1 → KeptBy m p
kept-Same m (ok a, m') h = tt
kept-Same m (err e, m') h = h

Respects-Refuses {ℓ} : {A : Type ℓ} (x : Exec A) → Respects Same x → Refuses x
Respects-Refuses x h = record { at = λ m. kept-Same m (x m) (h.at m) }

kept_join {ℓ} :
    {A : Type ℓ} (a b : Manager) (p : Result A × Manager) → Same a b → KeptBy b p → KeptBy a p
kept_join a b (ok x, m') h k = tt
kept_join a b (err e, m') h k = Same-Closed.joins a b m' h k

continue-Refuses {ℓ κ} :
    {A : Type ℓ} {B : Type κ} (f : A → Exec B) (a : Manager) (r : Result A) (m : Manager)
    → Same a m
    → ((x : A) → Refuses (f x))
    → KeptBy a (continue f r m)
continue-Refuses f a (ok x) m h hf = kept_join a m (f x m) h ((hf x).at m)
continue-Refuses f a (err e) m h hf = h

Refuses-bind {ℓ κ} :
    {A : Type ℓ} {B : Type κ} (x : Exec A) (f : A → Exec B)
    → Respects Same x
    → ((a : A) → Refuses (f a))
    → Refuses (x >>= f)
unfolding ◌>>=◌
Refuses-bind x f hx hf = record { at = λ m. continue-Refuses f m (x m).0 (x m).1 (hx.at m) hf }

admit_revision-Refuses :
    (env : Env) (now : ℕ) (owner : String) (s : LiveSession) (req : RevisionRequest) (r : Record)
    → Refuses (admit_revision env now owner s req r)
unfolding admit_revision
admit_revision-Refuses env now owner s req r = Refuses-bind _ _ (supersede-Same s r now) (λ _.
    Refuses-bind _ _ (pin_for_session-Same env r now)
      (λ _. Succeeds-Refuses _ (search (Succeeds-pure, Succeeds-modify) depth 20)))

submit_new-Refuses :
    (env : Env) (now : ℕ) (random : Result String) (owner : String) (s : LiveSession)
    (req : RevisionRequest)
    → Refuses (submit_new env now random owner s req)
unfolding submit_new
submit_new-Refuses env now random owner s req =
    Refuses-bind _ _ (Respects-fail_if Same-Closed _ _) (λ _.
      Refuses-bind _ _ (allow_revision-Same env owner now) (λ allowed.
        Refuses-bind _ _ (Respects-fail_if Same-Closed _ _) (λ _.
          Refuses-bind _ _ (prepare_upload-Same env owner req.upload_id now) (λ prepared.
            Refuses-bind _ _ (store_revision-Same env now random owner s prepared.0 prepared.1)
              (λ r. admit_revision-Refuses env now owner s req r)))))

submit_to-Refuses :
    (env : Env) (now : ℕ) (random : Result String) (owner : String) (req : RevisionRequest)
    (s : LiveSession) (o : Option RevisionReceipt)
    → Refuses (submit_to env now random owner req s o)
submit_to-Refuses env now random owner req s none = submit_new-Refuses env now random owner s req
submit_to-Refuses env now random owner req s (some receipt) = Respects-Refuses _ (record {
  at = λ m. record { sessions = ground arith; queue = ground arith; uploads = ground arith };
})

submit_revision-Refuses :
    (env : Env) (now : ℕ) (random : Result String) (owner id : String) (req : RevisionRequest)
    → Refuses (submit_revision env now random owner id req)
unfolding submit_revision
submit_revision-Refuses env now random owner id req =
    Refuses-bind _ _ (Respects-fail_if Same-Closed _ _) (λ _.
      Refuses-bind _ _ (Respects-gets Same-Closed _) (λ found.
        Refuses-bind _ _ (Respects-lift Same-Closed found) (λ s.
          submit_to-Refuses env now random owner req s (lookup req.idempotency_key s.receipts))))

-- A revision that is refused, wherever its submission stops, leaves all sessions, the queue and the
-- uploads as they were: neither the revision of the session nor its receipts change, no token is
-- queued, and the upload can be submitted again.
pub submit_revision_refused :
    (env : Env) (now : ℕ) (random : Result String) (owner id : String) (req : RevisionRequest)
    (m : Manager)
    → KeptBy m (submit_revision env now random owner id req m)
submit_revision_refused env now random owner id req m =
    (submit_revision-Refuses env now random owner id req).at m
