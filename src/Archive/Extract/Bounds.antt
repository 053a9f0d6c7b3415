-- ===== src/Archive/Extract/Bounds.antt =====
-- The limits that an extraction keeps.
use latexmk.Prelude.{
  ℕ, suc, ◌+◌, ◌-◌, ◌≤◌, ◌≡◌, ◌≢◌, ◌⊎◌, inl, inr, refl, sym, ap, ◌∙◌, String, false, ◌&&◌, Option,
  none, some, List, [], ◌∷◌, All, Map, lookup, put, lookup-put, lookup-put_self, Bool-cases, Result,
  ok, err, ltb, arith,
}
use latexmk.Archive.Trailer.{Reader, verify_trailer}
use latexmk.Archive.Extract.{
  Limits, EntryType, Header, Next, Extraction, byte_limit, is_seen, write_file, extract_as, counted,
  extract_path, extract_entry, go_on, extract_entries, start, error_of, trailed, extract_tar_gz,
}

-- The bytes of what is written.
abbrev pub sum_written : List (String × ℕ) → ℕ
sum_written [] = 0
sum_written ((_, n) ∷ files) = n + sum_written files

-- A path is not among some files; no path is written twice; all are seen.
abbrev pub Fresh : String → List (String × ℕ) → Type 0
Fresh path [] = Unit
Fresh path ((p, _) ∷ files) = (p ≢ path) × Fresh path files

abbrev pub Once : List (String × ℕ) → Type 0
Once [] = Unit
Once ((p, _) ∷ files) = Fresh p files × Once files

abbrev pub Seen : Map (Unit {0}) → List (String × ℕ) → Type 0
Seen seen files = All (λ f. lookup f.0 seen ≡ some tt) files

-- What is written is within the limit.
pub record IsBounded (limits : Limits) (x : Extraction) : Type 0 where
  pub covered : sum_written x.written ≤ x.stats.bytes
  pub limited : x.stats.bytes ≤ byte_limit limits
  pub seen : Seen x.seen x.written
  pub once : Once x.written

-- Behind a turn that goes on, the entries are within their limit too.
abbrev pub Counts : Limits → Option String → ℕ → Type 0
Counts limits (some e) files = Unit {0}
Counts limits none files = (limits.max_files ≡ 0) ⊎ (files ≤ limits.max_files)

abbrev pub Extracted : Limits → Option String × Extraction → Type 0
Extracted limits (e, x) = IsBounded limits x × Counts limits e x.stats.files

Seen-put :
    (path : String) (seen : Map (Unit {0})) (files : List (String × ℕ))
    → Seen seen files
    → Seen (put path tt seen) files
Seen-put path seen [] h = tt
Seen-put path seen ((p, n) ∷ files) (h, hs) =
    (ground (arith, h, lookup-put path p tt seen), Seen-put path seen files hs)

Seen-Fresh :
    (path : String) (seen : Map (Unit {0})) (files : List (String × ℕ))
    → lookup path seen ≡ none
    → Seen seen files
    → Fresh path files
Seen-Fresh path seen [] u h = tt
Seen-Fresh path seen ((p, n) ∷ files) u (h, hs) =
    (λ q. ground (arith, sym h ∙ ap (λ k. lookup k seen) q ∙ u), Seen-Fresh path seen files u hs)

counted-IsBounded :
    (limits : Limits) (path : String) (x : Extraction)
    → IsBounded limits x
    → IsBounded limits (counted path x)
counted-IsBounded limits path x b = record {
  covered = b.covered;
  limited = b.limited;
  seen = Seen-put path x.seen x.written b.seen;
  once = b.once;
}

room :
    (limit bytes size : ℕ) → bytes ≤ limit → ltb (limit - bytes) size ≡ false → bytes + size ≤ limit
room limit bytes size b h = ground (arith, b, h)

extract_as-IsBounded :
    (limits : Limits) (path : String) (h : Header) (k : EntryType) (x : Extraction)
    → lookup path x.seen ≡ none
    → IsBounded limits x
    → IsBounded limits (extract_as limits path h k (counted path x)).1
extract_as-IsBounded limits path h EntryType.directory x u b = counted-IsBounded limits path x b
extract_as-IsBounded limits path h EntryType.other x u b = counted-IsBounded limits path x b
extract_as-IsBounded limits path h EntryType.regular x u b =
    elim (Bool-cases (ltb (byte_limit limits - x.stats.bytes) h.size)) [
      | inl e ↦ rw e (counted-IsBounded limits path x b)
      | inr e ↦ rw e (sized h.made (room (byte_limit limits) x.stats.bytes h.size b.limited e))
    ]
  where
    sized :
        (o : Option String)
        → x.stats.bytes + h.size ≤ byte_limit limits
        → IsBounded limits (write_file path h.size o (counted path x)).1
    sized (some e) r = record {
      covered = omega (arith, b.covered);
      limited = r;
      seen = Seen-put path x.seen x.written b.seen;
      once = b.once;
    }
    sized none r = record {
      covered = omega (arith, b.covered);
      limited = r;
      seen = (lookup-put_self path tt x.seen, Seen-put path x.seen x.written b.seen);
      once = (Seen-Fresh path x.seen x.written u b.seen, b.once);
    }

is_seen-none : (o : Option (Unit {0})) → is_seen o ≡ false → o ≡ none
is_seen-none none h = refl
is_seen-none (some u) h = ground arith

extract_as-files :
    (limits : Limits) (path : String) (h : Header) (k : EntryType) (x : Extraction)
    → (extract_as limits path h k x).1.stats.files ≡ x.stats.files
extract_as-files limits path h EntryType.directory x = refl
extract_as-files limits path h EntryType.other x = refl
extract_as-files limits path h EntryType.regular x = ground arith

Counts-of :
    (limits : Limits) (e : Option String) (files : ℕ)
    → (ltb 0 limits.max_files && ltb limits.max_files files) ≡ false
    → Counts limits e files
Counts-of limits (some e) files h = tt
Counts-of limits none files h = ground (arith, h)

extract_path-Extracted :
    (limits : Limits) (path : String) (h : Header) (x : Extraction)
    → IsBounded limits x
    → Extracted limits (extract_path limits path h x)
extract_path-Extracted limits path h x b = elim (Bool-cases (is_seen (lookup path x.seen))) [
  | inl e ↦ rw e (b, tt)
  | inr e ↦ elim (Bool-cases (ltb 0 limits.max_files && ltb limits.max_files (suc x.stats.files))) [
    | inl f ↦ rw (e, f) (counted-IsBounded limits path x b, tt)
    | inr f ↦
        rw (e, f)
          (
            extract_as-IsBounded limits path h h.kind x (is_seen-none (lookup path x.seen) e) b,
            Counts-of limits _ _ (
                ap (λ n. ltb 0 limits.max_files && ltb limits.max_files n)
                  (extract_as-files limits path h h.kind (counted path x))
                ∙ f),
          )
  ]
]

extract_entry-Extracted :
    (limits : Limits) (n : Next) (x : Extraction)
    → IsBounded limits x
    → Extracted limits (extract_entry limits n x)
unfolding extract_entry
extract_entry-Extracted limits (Next.broken e) x b = (b, tt)
extract_entry-Extracted limits (Next.header h) x b = cleaned h.clean
  where
    cleaned :
        (r : Result String)
        → Extracted limits (elim r [ err e ↦ (some e, x) | ok path ↦ extract_path limits path h x ])
    cleaned (err e) = (b, tt)
    cleaned (ok path) = extract_path-Extracted limits path h x b

extract_entries-Extracted :
    (limits : Limits) (entries : List Next) (x : Extraction)
    → IsBounded limits x
    → Counts limits none x.stats.files
    → Extracted limits (extract_entries limits entries x)
unfolding extract_entries
extract_entries-Extracted limits [] x b c = (b, c)
extract_entries-Extracted limits (n ∷ entries) x b c =
    next (extract_entry limits n x) (extract_entry-Extracted limits n x b)
      (λ y. extract_entries-Extracted limits entries y)
  where
    next :
        (r : Option String × Extraction)
        → Extracted limits r
        → ((y : Extraction)
            → IsBounded limits y
            → Counts limits none y.stats.files
            → Extracted limits (extract_entries limits entries y))
        → Extracted limits (go_on (extract_entries limits entries) r)
    next (some e, y) h ih = h
    next (none, y) h ih = ih y h.0 h.1

-- Whatever the archive holds and wherever the extraction stops: the bytes written are within the
-- limit, and no path is written twice. An extraction that succeeds has counted no more entries
-- than `MaxFiles`, where that is not zero.
pub extract_tar_gz-Extracted :
    (limits : Limits) (entries : List Next) (rest : Reader)
    → Extracted limits (extract_tar_gz limits entries rest)
unfolding extract_tar_gz
extract_tar_gz-Extracted limits entries rest =
    ended (extract_entries limits entries start)
      (extract_entries-Extracted limits entries start start-IsBounded (inr (omega arith)))
  where
    start-IsBounded : IsBounded limits start
    start-IsBounded = record { covered = omega arith; limited = omega arith; seen = tt; once = tt }

    verified :
        (r : Result (Unit {0})) (x : Extraction)
        → Extracted limits (none, x)
        → Extracted limits (error_of r, x)
    verified (ok u) x h = h
    verified (err e) x h = (h.0, tt)

    ended :
        (r : Option String × Extraction) → Extracted limits r → Extracted limits (trailed rest r)
    ended (some e, x) h = h
    ended (none, x) h = verified (verify_trailer rest) x h
