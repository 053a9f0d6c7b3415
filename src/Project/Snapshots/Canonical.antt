-- ===== src/Project/Snapshots/Canonical.antt =====
-- What `NewSnapshot` makes of a manifest: sorted files, each path once.
use text.Mathlib.Text.{◌==◌ as same}
use text.Mathlib.TextEquality.{eq_iff}
use mathlib.Core.List.Permᴰ.{symm as Perm_symm}
use mathlib.Core.List.{Permᴰ as Perm}
use mathlib.Core.Bool.{true≢false}
use latexmk.Prelude.{
  ◌≡◌, ◌≢◌, refl, sym, ap, subst, ◌∙◌, String, true, false, not, ◌||◌, List, [], ◌∷◌, All, Result,
  ok, err, ◌>>◌, passed, arith, inl, inr, Bool-cases, sort_by, Ordered, Ascending, Ascending-cons,
  sort_by-Ordered, sort_by_of-Ordered, sort_by_perm, sort_by-Perm, Apart, All-Perm, Apart-Perm,
  Ascending→Apart,
}
use latexmk.Protocol.{ProjectFile}
use latexmk.Project.Snapshots.{
  path_of, check_canonical, is_empty, identified, new_snapshot, validate_snapshot,
}
use latexmk.Project.Names.{Codec, valid_project_id, valid_project_path, valid_sha256}
use latexmk.Project.Pins.{Snapshot}
use latexmk.Project.State.{Store}

-- A file of a path and a digest that the store takes.
abbrev pub IsValidFile : Codec → ProjectFile → Type 0
IsValidFile c f = (valid_project_path c f.path ≡ true) × (valid_sha256 c f.sha256 ≡ true)

valid_both :
    (c : Codec) (f : ProjectFile)
    → (not (valid_project_path c f.path) || not (valid_sha256 c f.sha256)) ≡ false
    → IsValidFile c f
valid_both c f h = ground (arith, h)

same_false→ne : (s t : String) → same s t ≡ false → s ≢ t
same_false→ne s t h e = absurd (true≢false (sym ((eq_iff s t).1 e) ∙ h))

check_canonical-Ascending :
    (c : Codec) (f : ProjectFile) (files : List ProjectFile)
    → Ordered path_of (f ∷ files)
    → check_canonical c (f ∷ []) files ≡ ok tt
    → Ascending path_of (f ∷ files) × All (IsValidFile c) files
unfolding check_canonical
check_canonical-Ascending c f [] o h = ((tt, tt), tt)
check_canonical-Ascending c f (g ∷ files) o h =
    let p = passed _ _ _ tt h in
    let q = passed _ _ _ tt p.1 in
    let rest = check_canonical-Ascending c g files o.1 q.1 in
    (
      Ascending-cons path_of f g files o (same_false→ne f.path g.path q.0) rest.0,
      (valid_both c g p.0, rest.1),
    )

check_canonical-All :
    (c : Codec) (files : List ProjectFile)
    → Ordered path_of files
    → check_canonical c [] files ≡ ok tt
    → Ascending path_of files × All (IsValidFile c) files
unfolding check_canonical
check_canonical-All c [] o h = (tt, tt)
check_canonical-All c (f ∷ files) o h =
    let p = passed _ _ _ tt h in
    let rest = check_canonical-Ascending c f files o p.1 in (rest.0, (valid_both c f p.0, rest.1))

checked : (r : Result (Unit {0})) (s t : Snapshot) → (r >> ok s) ≡ ok t → (r ≡ ok tt) × (s ≡ t)
checked (ok u) s t h = (refl, cc h)
checked (err e) s t h = ground arith

-- What an accepted manifest went through.
record Accepted (env : Store) (owner project : String) (files : List ProjectFile) (s : Snapshot)
    : Type 0 where
  owned : same owner "" ≡ false
  named : valid_project_id project ≡ true
  some_file : is_empty files ≡ false
  canonical : check_canonical env.codec [] (sort_by path_of files) ≡ ok tt
  result : identified env owner project (sort_by path_of files) ≡ s

new_snapshot-Accepted :
    (env : Store) (owner project : String) (files : List ProjectFile) (s : Snapshot)
    → new_snapshot env owner project files ≡ ok s
    → Accepted env owner project files s
unfolding new_snapshot
new_snapshot-Accepted env owner project files s h =
    let p = passed _ _ _ s h in
    let q = passed (not (valid_project_id project)) _ _ s p.1 in
    let r = passed (is_empty files) _ _ s q.1 in
    let c = checked _ _ s r.1 in
    record {
      owned = p.0;
      named = ground (arith, q.0);
      some_file = r.0;
      canonical = c.0;
      result = c.1;
    }

-- Behind an accepted manifest: the files of the snapshot are those of the manifest, in the order of
-- their paths, of which no two are the same, and each path and digest is one that the store takes.
pub new_snapshot-IsCanonical :
    (env : Store) (owner project : String) (files : List ProjectFile) (s : Snapshot)
    → new_snapshot env owner project files ≡ ok s
    → Perm files s.files × Ascending path_of s.files × All (IsValidFile env.codec) s.files
new_snapshot-IsCanonical env owner project files s h =
    let a = new_snapshot-Accepted env owner project files s h in
    let sorted =
      check_canonical-All env.codec (sort_by path_of files) (sort_by-Ordered path_of files)
        a.canonical in
    subst
      (λ t. Perm files t.files × Ascending path_of t.files × All (IsValidFile env.codec) t.files)
      a.result (sort_by_perm path_of files, sorted.0, sorted.1)

Accepted-new_snapshot :
    (env : Store) (owner project : String) (files : List ProjectFile) (s : Snapshot)
    → Accepted env owner project files s
    → new_snapshot env owner project files ≡ ok s
unfolding new_snapshot
Accepted-new_snapshot env owner project files s a =
    rw (new_snapshot, a.owned, a.named, a.some_file, a.canonical) (ap ok a.result)

is_empty-Perm : {xs ys : List ProjectFile} → Perm xs ys → is_empty xs ≡ is_empty ys
is_empty-Perm Perm.nil = refl
is_empty-Perm (Perm.cons e p) = refl
is_empty-Perm (Perm.swap e f) = refl
is_empty-Perm (Perm.trans p q) = is_empty-Perm p ∙ is_empty-Perm q

-- Two manifests of the same files, in whatever order, are accepted alike, with one identifier: what
-- the first gives the second gives.
pub new_snapshot_perm :
    (env : Store) (owner project : String) (files others : List ProjectFile) (s : Snapshot)
    → Perm files others
    → new_snapshot env owner project files ≡ ok s
    → new_snapshot env owner project others ≡ ok s
new_snapshot_perm env owner project files others s p h =
    let a = new_snapshot-Accepted env owner project files s h in
    let sorted =
      check_canonical-All env.codec (sort_by path_of files) (sort_by-Ordered path_of files)
        a.canonical in
    let apart =
      Apart-Perm path_of (Perm_symm (sort_by_perm path_of files))
        (Ascending→Apart path_of (sort_by path_of files) sorted.0) in
    let same_order = sort_by-Perm path_of p apart in
    Accepted-new_snapshot env owner project others s (record {
      owned = a.owned;
      named = a.named;
      some_file = sym (is_empty-Perm p) ∙ a.some_file;
      canonical = subst (λ l. check_canonical env.codec [] l ≡ ok tt) same_order a.canonical;
      result = subst (λ l. identified env owner project l ≡ s) same_order a.result;
    })

pub ne→same_false : (s t : String) → s ≢ t → same s t ≡ false
ne→same_false s t n = elim (Bool-cases (same s t)) [
  | inl e ↦ absurd (n ((eq_iff s t).0 e))
  | inr e ↦ e
]

validate_identified :
    (env : Store) (s : Snapshot)
    → s.id ≢ ""
    → new_snapshot env s.owner_id s.project_id s.files ≡ ok s
    → validate_snapshot env s ≡ ok tt
unfolding validate_snapshot
validate_identified env s n h =
    rw (validate_snapshot, h, ne→same_false s.id "" n, (eq_iff s.id s.id).1 refl) refl

-- A snapshot that `NewSnapshot` made passes `ValidateSnapshot`: its identifier is found again from
-- its own files. An identifier is never the empty text (it begins with `src_`).
pub validate_snapshot-new_snapshot :
    (env : Store) (owner project : String) (files : List ProjectFile) (s : Snapshot)
    → ((o p : String) (l : List ProjectFile) → env.identify o p l ≢ "")
    → new_snapshot env owner project files ≡ ok s
    → validate_snapshot env s ≡ ok tt
unfolding validate_snapshot
validate_snapshot-new_snapshot env owner project files s named h =
    let a = new_snapshot-Accepted env owner project files s h in
    let again =
      sort_by_of-Ordered path_of (sort_by path_of files) (sort_by-Ordered path_of files) in
    let fixed =
      Accepted-new_snapshot env owner project (sort_by path_of files)
        (identified env owner project (sort_by path_of files))
        (record {
          owned = a.owned;
          named = a.named;
          some_file = sym (is_empty-Perm (sort_by_perm path_of files)) ∙ a.some_file;
          canonical = subst (λ l. check_canonical env.codec [] l ≡ ok tt) (sym again) a.canonical;
          result = ap (identified env owner project) again;
        }) in
    validate_identified env s
      (subst (λ t. t.id ≢ "") a.result (named owner project (sort_by path_of files)))
      (subst (λ t. new_snapshot env t.owner_id t.project_id t.files ≡ ok t) a.result fixed)

check_later :
    (c : Codec) (f : ProjectFile) (files : List ProjectFile)
    → Apart path_of (f ∷ files)
    → All (IsValidFile c) files
    → check_canonical c (f ∷ []) files ≡ ok tt
unfolding check_canonical
check_later c f [] a v = refl
check_later c f (g ∷ files) ((n, _), a) ((p, d), v) =
    rw (check_canonical, p, d, ne→same_false f.path g.path n) (check_later c g files a v)

check_canonical_ok :
    (c : Codec) (files : List ProjectFile)
    → Apart path_of files
    → All (IsValidFile c) files
    → check_canonical c [] files ≡ ok tt
unfolding check_canonical
check_canonical_ok c [] a v = refl
check_canonical_ok c (f ∷ files) a ((p, d), v) =
    rw (check_canonical, p, d) (check_later c f files a v)

-- A manifest of valid files of different paths gives a snapshot.
pub new_snapshot_ok :
    (env : Store) (owner project : String) (files : List ProjectFile)
    → same owner "" ≡ false
    → valid_project_id project ≡ true
    → is_empty files ≡ false
    → Apart path_of files
    → All (IsValidFile env.codec) files
    → new_snapshot env owner project files
      ≡ ok (identified env owner project (sort_by path_of files))
new_snapshot_ok env owner project files o n e a v =
    let sorted = sort_by_perm path_of files in
    Accepted-new_snapshot env owner project files _ (record {
      owned = o;
      named = n;
      some_file = e;
      canonical =
          check_canonical_ok env.codec (sort_by path_of files) (Apart-Perm path_of sorted a)
            (All-Perm path_of (IsValidFile env.codec) sorted v);
      result = refl;
    })

pub new_snapshot-owner_id :
    (env : Store) (owner project : String) (files : List ProjectFile) (s : Snapshot)
    → new_snapshot env owner project files ≡ ok s
    → s.owner_id ≡ owner
new_snapshot-owner_id env owner project files s h =
    sym (ap (λ t. t.owner_id) (new_snapshot-Accepted env owner project files s h).result)
