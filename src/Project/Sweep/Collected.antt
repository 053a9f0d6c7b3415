-- ===== src/Project/Sweep/Collected.antt =====
-- What the sweeps collect: references to every blob of a session, of a pin and of a snapshot.
use latexmk.Prelude.{
  ℕ, ◌≡◌, sym, subst, ◌∙◌, String, String-discrete, some, List, [], ◌∷◌, Map, lookup, arith, if_pos,
  if_neg,
}
use latexmk.Protocol.{ProjectFile}
use latexmk.Project.Names.{Codec, owner_key, reference_key}
use latexmk.Project.Pins.{Snapshot, PinnedSnapshot}
use latexmk.Project.State.{Upload, StoredSnapshot, Sources}
use latexmk.Project.Blobs.{References, add_snapshot_references}
use latexmk.Project.Sweep.{add_each, add_session, add_pin, add_stored, add_held}
use latexmk.Project.Sweep.Kept.{
  Holds, Referenced, Holds-add_expected, add_expected-Holds, Holds-add_files, add_files-Referenced,
}

-- What every step of a loop keeps is kept by the loop, and what the step of one entry brings is there.
module _ {ℓ} {V : Type ℓ} (add : References → V → References) (P : References → Type 0)
    (keeps : (r : References) (v : V) → P r → P (add r v)) where
  add_each-keeps : (refs : References) (m : Map V) → P refs → P (add_each add refs m)
  unfolding add_each
  add_each-keeps refs [] h = h
  add_each-keeps refs ((_, v) ∷ m) h = add_each-keeps (add refs v) m (keeps refs v h)

  add_each-brings :
      (refs : References) (id : String) (v : V) (m : Map V)
      → ((r : References) → P (add r v))
      → lookup id m ≡ some v
      → P (add_each add refs m)
  unfolding add_each lookup
  add_each-brings refs id v [] adds h = ground arith
  add_each-brings refs id v ((j, w) ∷ m) adds h = elim (String-discrete j id) [
    | yes e ↦
        add_each-keeps (add refs w) m (
          subst (λ x. P (add refs x)) (cc (sym h ∙ if_pos (String-discrete j id) e _ _))
            (adds refs))
    | no e ↦
        add_each-brings (add refs w) id v m adds (sym (if_neg (String-discrete j id) e _ _) ∙ h)
  ]

-- A property of references that only more references can bring about.
abbrev pub IsMonotone : Codec → (References → Type 0) → Type 0
IsMonotone c P =
    ((r : References) (u : Upload) → P r → P (add_session c r u))
    × ((r : References) (s : Snapshot) → P r → P (add_snapshot_references c r s))

add_session-keeps :
    (c : Codec) (key : String) (r : References) (u : Upload)
    → Holds r key
    → Holds (add_session c r u) key
add_session-keeps c key r u h = Holds-add_expected r (owner_key c u.owner_id) key u.expected h

add_snapshot-keeps :
    (c : Codec) (key : String) (r : References) (s : Snapshot)
    → Holds r key
    → Holds (add_snapshot_references c r s) key
unfolding add_snapshot_references
add_snapshot-keeps c key r s h = Holds-add_files c r (owner_key c s.owner_id) key s.files h

pub Holds-IsMonotone : (c : Codec) (key : String) → IsMonotone c (λ r. Holds r key)
Holds-IsMonotone c key = (add_session-keeps c key, add_snapshot-keeps c key)

Referenced-mono :
    (c : Codec) (a b : References) (owner : String) (files : List ProjectFile)
    → ((key : String) → Holds a key → Holds b key)
    → Referenced c a owner files
    → Referenced c b owner files
Referenced-mono c a b owner [] f h = tt
Referenced-mono c a b owner (g ∷ files) f (h, hs) =
    (λ v. f (reference_key owner g.sha256) (h v), Referenced-mono c a b owner files f hs)

pub Referenced-IsMonotone :
    (c : Codec) (owner : String) (files : List ProjectFile)
    → IsMonotone c (λ r. Referenced c r owner files)
Referenced-IsMonotone c owner files = (
  λ r u. Referenced-mono c r (add_session c r u) owner files (λ key. add_session-keeps c key r u),
  λ r s.
      Referenced-mono c r (add_snapshot_references c r s) owner files
        (λ key. add_snapshot-keeps c key r s),
)

-- The references of a hold of the lock over the sessions and the pins, and of the loop over the
-- snapshots.
module _ (c : Codec) where
  pub add_held-keeps :
      (P : References → Type 0)
      → IsMonotone c P
      → (refs : References) (s : Sources) → P refs
      → P (add_held c refs s)
  add_held-keeps P mono refs s h =
      add_each-keeps (add_pin c) P (λ r pin. mono.1 r pin.snapshot)
        (add_each (add_session c) refs s.sessions) s.pins
        (add_each-keeps (add_session c) P mono.0 refs s.sessions h)

  pub add_each_stored-keeps :
      (P : References → Type 0)
      → IsMonotone c P
      → (refs : References) (m : Map StoredSnapshot) → P refs
      → P (add_each (add_stored c) refs m)
  add_each_stored-keeps P mono refs m h =
      add_each-keeps (add_stored c) P (λ r stored. mono.1 r stored.snapshot) refs m h

  pub add_held-session :
      (refs : References) (id digest : String) (size : ℕ) (u : Upload) (s : Sources)
      → lookup id s.sessions ≡ some u
      → lookup digest u.expected ≡ some size
      → Holds (add_held c refs s) (reference_key (owner_key c u.owner_id) digest)
  add_held-session refs id digest size u s h e =
      let key = reference_key (owner_key c u.owner_id) digest in
      add_each-keeps (add_pin c) (λ r. Holds r key)
        (λ r pin. add_snapshot-keeps c key r pin.snapshot)
        (add_each (add_session c) refs s.sessions) s.pins
        (add_each-brings (add_session c) (λ r. Holds r key) (add_session-keeps c key) refs id u
          s.sessions (λ r. add_expected-Holds r (owner_key c u.owner_id) digest size u.expected e)
          h)

  -- The files of a snapshot are referenced behind it.
  abbrev pub Wanted : References → Snapshot → Type 0
  Wanted refs s = Referenced c refs (owner_key c s.owner_id) s.files

  add_snapshot-Wanted : (r : References) (s : Snapshot) → Wanted (add_snapshot_references c r s) s
  unfolding add_snapshot_references
  add_snapshot-Wanted r s = add_files-Referenced c r (owner_key c s.owner_id) s.files

  pub add_held-pin :
      (refs : References) (id : String) (pin : PinnedSnapshot) (s : Sources)
      → lookup id s.pins ≡ some pin
      → Wanted (add_held c refs s) pin.snapshot
  add_held-pin refs id pin s h =
      add_each-brings (add_pin c) (λ r. Wanted r pin.snapshot)
        (λ r p.
          (Referenced-IsMonotone c (owner_key c pin.snapshot.owner_id) pin.snapshot.files).1 r
            p.snapshot)
        (add_each (add_session c) refs s.sessions) id pin s.pins
        (λ r. add_snapshot-Wanted r pin.snapshot) h

  pub add_each_stored :
      (refs : References) (key : String) (st : StoredSnapshot) (m : Map StoredSnapshot)
      → lookup key m ≡ some st
      → Wanted (add_each (add_stored c) refs m) st.snapshot
  add_each_stored refs key st m h =
      add_each-brings (add_stored c) (λ r. Wanted r st.snapshot)
        (λ r p.
          (Referenced-IsMonotone c (owner_key c st.snapshot.owner_id) st.snapshot.files).1 r
            p.snapshot)
        refs key st m (λ r. add_snapshot-Wanted r st.snapshot) h
