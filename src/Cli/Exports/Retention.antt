-- ===== src/Cli/Exports/Retention.antt =====
-- What the retention of exports never removes.
use mathlib.Core.Bool.{true≢false}
use latexmk.Prelude.{
  ℕ, ◌-◌, ◌≡◌, ◌≢◌, refl, sym, ap, ◌∙◌, ◌⊎◌, inl, inr, subst, String, String-discrete, Bool, true,
  false, not, ◌||◌, Option, none, some, List, [], ◌∷◌, ◌++◌, lookup, lookup-delete, Result, ok, err,
  leb, ◌==◌, if◌then◌else◌, length, take, drop, arith, Bool-cases,
}
use latexmk.Cli.Exports.{
  File, Object, Disk, Forms, Calls, Outcome, failed, same_as_any, remove_object, remove_verified,
  and_then, lowered, remove_files, inode_of, inodes, paths_of, stored_as, after_removal,
  protected_by, retain, is_kept, is_published, after_write, without_aliases, commit_then,
  write_then, with_others, stage_then, with_history, without_path, others_of, validated, validate,
  read, is_bad, publish,
}

-- What stands at a path is one of some files.
abbrev Held : List ℕ → Option Object → Type 0
Held protected none = Unit
Held protected (some o) = same_as_any o.inode protected ≡ true

remove_object_same :
    (failure : Option String) (protected : List ℕ) (f : File) (o : Option Object) (disk : Disk)
    → Held protected o
    → (remove_object failure protected f o disk).1 ≡ disk
remove_object_same failure protected f none disk h = refl
remove_object_same failure protected f (some o) disk h = ground (arith, h)

remove_object_other :
    (failure : Option String) (protected : List ℕ) (f : File) (o : Option Object) (disk : Disk)
    (p : String)
    → f.path ≢ p
    → lookup p (remove_object failure protected f o disk).1 ≡ lookup p disk
remove_object_other failure protected f none disk p n = refl
remove_object_other failure protected f (some o) disk p n =
    ground (arith, n, lookup-delete f.path p disk)

remove_verified-Held :
    (failure : Option String) (protected : List ℕ) (f : File) (disk : Disk) (p : String)
    → Held protected (lookup p disk)
    → lookup p (remove_verified failure protected f disk).1 ≡ lookup p disk
unfolding remove_verified
remove_verified-Held failure protected f disk p h = elim (String-discrete f.path p) [
  | yes e ↦ ap (lookup p) (
      remove_object_same failure protected f (lookup f.path disk) disk
        (subst (λ q. Held protected (lookup q disk)) (sym e) h))
  | no n ↦ remove_object_other failure protected f (lookup f.path disk) disk p n
]

remove_files-Held :
    (forms : Forms) (failure : String → Option String) (protected : List ℕ) (files : List File)
    (disk : Disk) (p : String)
    → Held protected (lookup p disk)
    → lookup p (remove_files forms failure protected files disk).1 ≡ lookup p disk
unfolding remove_files
remove_files-Held forms failure protected [] disk p h = refl
remove_files-Held forms failure protected (f ∷ files) disk p h =
    rest (remove_verified (failure f.path) protected (lowered forms f) disk)
      (remove_verified-Held (failure f.path) protected (lowered forms f) disk p h)
      (λ d. remove_files-Held forms failure protected files d p)
  where
    rest :
        (r : Option String × Disk)
        → lookup p r.1 ≡ lookup p disk
        → ((d : Disk)
            → Held protected (lookup p d)
            → lookup p (remove_files forms failure protected files d).1 ≡ lookup p d)
        → lookup p (and_then (remove_files forms failure protected files) r).1 ≡ lookup p disk
    rest (some e, d) q ih = q
    rest (none, d) q ih = ih d (subst (Held protected) (sym q) h) ∙ q

-- A path is among some.
abbrev pub Among : String → List String → Type 0
Among p [] = ⊥
Among p (q ∷ paths) = (q ≡ p) ⊎ Among p paths

same_as_any-append :
    (n : ℕ) (a b : List ℕ)
    → (same_as_any n a ≡ true) ⊎ (same_as_any n b ≡ true)
    → same_as_any n (a ++ b) ≡ true
same_as_any-append n [] b (inl h) = ground arith
same_as_any-append n [] b (inr h) = h
same_as_any-append n (x ∷ a) b (inl h) = elim (Bool-cases (same_as_any n a)) [
  | inl e ↦ ground (arith, same_as_any-append n a b (inl e))
  | inr e ↦ ground (arith, h, e)
]
same_as_any-append n (x ∷ a) b (inr h) = ground (arith, same_as_any-append n a b (inr h))

same_as_any_head : (n : ℕ) (rest : List ℕ) → same_as_any n (n ∷ rest) ≡ true
same_as_any_head n rest = ground arith

inodes_held :
    (p : String) (o : Object) (paths : List String) (disk : Disk)
    → Among p paths
    → lookup p disk ≡ some o
    → same_as_any o.inode (inodes paths disk) ≡ true
unfolding inodes
inodes_held p o [] disk h e = absurd h
inodes_held p o (q ∷ paths) disk (inl h) e =
    same_as_any-append o.inode (inode_of (lookup q disk)) (inodes paths disk) (
      inl (
        subst (λ x. same_as_any o.inode (inode_of x) ≡ true) (sym (ap (λ r. lookup r disk) h ∙ e))
          (same_as_any_head o.inode [])))
inodes_held p o (q ∷ paths) disk (inr h) e =
    same_as_any-append o.inode (inode_of (lookup q disk)) (inodes paths disk)
      (inr (inodes_held p o paths disk h e))

Among-append : (p : String) (a b : List String) → Among p b → Among p (a ++ b)
Among-append p [] b h = h
Among-append p (x ∷ a) b h = inr (Among-append p a b h)

-- The paths that are safe: that of the export, and those of the other groups.
abbrev pub IsSafe : File → List String → String → Type 0
IsSafe file others p = (file.path ≡ p) ⊎ Among p others

some_same : {a b : Object} → some a ≡ some b → a ≡ b
some_same h = cc h

protected_by-Held :
    (file : File) (others : List String) (kept : List File) (published : Object) (disk : Disk)
    (p : String)
    → lookup file.path disk ≡ some published
    → IsSafe file others p
    → (o : Option Object) → lookup p disk ≡ o
    → Held (protected_by published.inode others kept disk) o
protected_by-Held file others kept published disk p l s none e = tt
protected_by-Held file others kept published disk p l (inl q) (some o) e =
    subst
      (λ (x : Object). same_as_any x.inode (protected_by published.inode others kept disk) ≡ true)
      (some_same (sym l ∙ ap (λ r. lookup r disk) q ∙ e)) (same_as_any_head published.inode _)
protected_by-Held file others kept published disk p l (inr h) (some o) e =
    later published.inode _
      (inodes_held p o (paths_of kept ++ others) disk (Among-append p (paths_of kept) others h) e)
  where
    later : (n : ℕ) (l : List ℕ) → same_as_any o.inode l ≡ true → same_as_any o.inode (n ∷ l) ≡ true
    later n l h = ground (arith, h)

after_removal_disk :
    (calls : Calls) (old new : List File) (r : Option String × Disk)
    → (after_removal calls old new r).disk ≡ r.1
after_removal_disk calls old new (some e, d) = refl
after_removal_disk calls old new (none, d) = stored_as_disk calls.saved
  where
    stored_as_disk : (o : Option String) → (stored_as o d old new).disk ≡ d
    stored_as_disk none = refl
    stored_as_disk (some e) = refl

module _ (forms : Forms) (calls : Calls) (file : File) (others : List String) (disk : Disk)
    (p : String) (safe : IsSafe file others p) where
  quiet_retain :
      (b : Bool) (history unique : List File)
      → (if b
          then record { error = none; disk = disk; history = some history }
          else stored_as calls.saved disk history unique).disk
        ≡ disk
  quiet_retain true history unique = refl
  quiet_retain false history unique = ground arith

  retain_held :
      (published : Object) (keep_last : Option ℕ) (history unique : List File)
      → lookup file.path disk ≡ some published
      → lookup p (retain forms calls published.inode others keep_last history unique disk).disk
        ≡ lookup p disk
  retain_held published none history unique l =
      ap (lookup p) (quiet_retain (length unique == length history) history unique)
  retain_held published (some n) history unique l = elim (Bool-cases (leb (length unique) n)) [
    | inl e ↦ rw e (ap (lookup p) (quiet_retain (length unique == length history) history unique))
    | inr e ↦ rw e (
        ap (lookup p) (after_removal_disk calls history (drop (length unique - n) unique) _)
        ∙ remove_files-Held forms calls.failure
            (protected_by published.inode others (drop (length unique - n) unique) disk)
            (take (length unique - n) unique) disk p
            (protected_by-Held file others (drop (length unique - n) unique) published disk p l safe
              (lookup p disk) refl))
  ]

  after_write_held :
      (keep_last : Option ℕ) (before : List File) (o : Option Object)
      → lookup file.path disk ≡ o
      → lookup p (after_write forms calls file others keep_last before o disk).disk ≡ lookup p disk
  after_write_held keep_last before none l = refl
  after_write_held keep_last before (some o) l =
      elim (Bool-cases (is_kept keep_last || is_published forms file o)) [
        | inl e ↦ rw e (
            retain_held o keep_last (before ++ file ∷ [])
              (without_aliases o.inode disk before ++ file ∷ []) l)
        | inr e ↦ rw e refl
      ]

none≢some : {A : Type 0} {a : A} → none ≢ some a
none≢some h = ground arith

err≢ok : {A : Type 0} {e : String} {a : A} → err e ≢ ok a
err≢ok h = ground arith

-- Everything before the write succeeds.
pub record Ready (forms : Forms) (calls : Calls) (file : File) (keep_last : Option ℕ) : Type 0 where
  pub valid : validate forms file ≡ ok tt
  pub positive : is_bad keep_last ≡ false
  pub history : List File
  pub recorded : read forms calls.own ≡ ok history
  pub fits : calls.fits ≡ true
  pub staged : calls.staged ≡ none

-- What `Publish` leaves at a path: behind a write what the write left; and where something before the
-- write fails, the whole disk as it was, with an error.
abbrev pub Untouched : Forms → Calls → File → Option ℕ → String → Disk → Disk → Outcome → Type 0
Untouched forms calls file keep_last p before written outcome =
    (Ready forms calls file keep_last × (lookup p outcome.disk ≡ lookup p written))
    ⊎ ¬ Ready forms calls file keep_last × ((e : String) × (outcome ≡ failed e before))

-- A publication never removes the export that it has just written, nor a file that another group has
-- recorded. Where the other histories can be read and the write succeeds: if the file and the limit
-- are valid, the history can be read, is not too long and can be staged, then, however the call ends,
-- the path of the export and those that other groups have recorded hold what they held right behind
-- the write; if not, the call fails and changes nothing.
pub publish-Untouched :
    (forms : Forms) (calls : Calls) (file : File) (keep_last : Option ℕ) (disk written : Disk)
    (others : List String) (p : String)
    → calls.write ≡ ok written
    → others_of forms calls.groups ≡ ok others
    → IsSafe file others p
    → Untouched forms calls file keep_last p disk written (publish forms calls file keep_last disk)
unfolding publish
publish-Untouched forms calls file keep_last disk written others p w o safe =
    valid (validate forms file) refl
  where
    committed :
        (c : Option String) (before : List File)
        → lookup p (commit_then forms calls file others keep_last before c written).disk
          ≡ lookup p written
    committed (some e) before = refl
    committed none before =
        after_write_held forms calls file others written p safe keep_last before
          (lookup file.path written) refl

    staged :
        (c : Option String) (before : List File)
        → calls.staged ≡ c
        → (c ≡ none → Ready forms calls file keep_last)
        → Untouched forms calls file keep_last p disk written
            (stage_then forms calls file keep_last before c disk)
    staged (some e) before q ready = inr ((λ h. none≢some (sym h.staged ∙ q)), (e, refl))
    staged none before q ready = inl (
      ready refl,
      ap (λ r. lookup p (with_others forms calls file keep_last before r disk).disk) o
          ∙ ap (λ r. lookup p (write_then forms calls file others keep_last before r disk).disk) w
          ∙ committed calls.committed before,
    )

    recorded :
        (r : Result (List File))
        → read forms calls.own ≡ r
        → validate forms file ≡ ok tt
        → is_bad keep_last ≡ false
        → Untouched forms calls file keep_last p disk written
            (with_history forms calls file keep_last r disk)
    recorded (err e) h v b = inr ((λ r. err≢ok (sym h ∙ r.recorded)), (e, refl))
    recorded (ok history) h v b = fitting calls.fits refl
      where
        fitting :
            (fits : Bool)
            → calls.fits ≡ fits
            → Untouched forms calls file keep_last p disk written (
                if not fits
                then failed "export history exceeds 16 MiB" disk
                else stage_then forms calls file keep_last
                    (without_path file.path history)
                    calls.staged
                    disk)
        fitting false e =
            inr ((λ r. true≢false (sym r.fits ∙ e)), ("export history exceeds 16 MiB", refl))
        fitting true e = staged calls.staged (without_path file.path history) refl (λ s. record {
          valid = v;
          positive = b;
          history = history;
          recorded = h;
          fits = e;
          staged = s;
        })

    valid :
        (r : Result (Unit {0}))
        → validate forms file ≡ r
        → Untouched forms calls file keep_last p disk written
            (validated forms calls file keep_last r disk)
    valid (err e) v = inr ((λ r. err≢ok (sym v ∙ r.valid)), (e, refl))
    valid (ok u) v = elim (Bool-cases (is_bad keep_last)) [
      | inl e ↦
          rw e (inr ((λ r. true≢false (sym e ∙ r.positive)), ("keepLast must be positive", refl)))
      | inr e ↦ rw e (recorded (read forms calls.own) refl v e)
    ]
