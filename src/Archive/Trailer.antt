-- ===== src/Archive/Trailer.antt =====
-- The check of what follows a tar archive (packages/shared/archiveutil/trailer.go).
use latexmk.Prelude.{
  ℕ, zero, suc, ◌+◌, ◌-◌, ◌^◌, ◌≤◌, ◌<◌, ◌≡◌, refl, String, Bool, true, false, ◌&&◌, Option, none,
  some, List, [], ◌∷◌, ◌++◌, length, length-append, length-take, take, Result, ok, err, ltb, leb,
  ◌==◌, if◌then◌else◌, arith, leb→le, Bool-cases, inl, inr,
}

-- What a reader gives: bytes and more to come, or its last bytes with the end of the stream or an
-- error.
pub data Reader : Type 0 where
  next : List ℕ → Reader → Reader
  last : List ℕ → Option String → Reader

abbrev pub max_tar_padding_bytes : ℕ
max_tar_padding_bytes = 2 ^ 20

-- io.LimitReader
abbrev pub limited : ℕ → Reader → Reader
limited zero r = last [] none
limited (suc n) (last bytes end) =
    if ltb (suc n) (length bytes) then next (take (suc n) bytes) (last [] none) else last bytes end
limited (suc n) (next bytes r) =
    let rest = limited (suc n - length bytes) r in
    if ltb (suc n) (length bytes) then next (take (suc n) bytes) (last [] none) else next bytes rest

abbrev pub all_zero : List ℕ → Bool
all_zero [] = true
all_zero (b ∷ bytes) = b == 0 && all_zero bytes

abbrev pub check_bytes : ℕ → ℕ → List ℕ → Result (Unit {0})
check_bytes max total bytes =
    if ltb max (total + length bytes)
    then err "tar padding exceeds the limit"
    else if all_zero bytes
    then ok tt
    else err "unexpected data after tar end marker"

abbrev pub end_of : Option String → Result (Unit {0})
end_of none = ok tt
end_of (some e) = err e

abbrev pub and_then : Result (Unit {0}) → Result (Unit {0}) → Result (Unit {0})
and_then (err e) r = err e
and_then (ok _) r = r

-- The loop, with the bytes that it has counted.
unfoldable pub verify_rest : ℕ → ℕ → Reader → Result (Unit {0})
verify_rest max total (last bytes end) = and_then (check_bytes max total bytes) (end_of end)
verify_rest max total (next bytes r) =
    let rest = verify_rest max (total + length bytes) r in
    and_then (check_bytes max total bytes) rest

-- VerifyTrailer
unfoldable pub verify_trailer : Reader → Result (Unit {0})
verify_trailer r = verify_rest max_tar_padding_bytes 0 (limited (suc max_tar_padding_bytes) r)

-- All bytes that the reader gives, and whether it comes to the end of the stream.
abbrev pub contents : Reader → List ℕ
contents (last bytes end) = bytes
contents (next bytes r) = bytes ++ contents r

abbrev pub comes_to_end : Reader → Bool
comes_to_end (last bytes none) = true
comes_to_end (last bytes (some e)) = false
comes_to_end (next bytes r) = comes_to_end r

abbrev pub accepts : Result (Unit {0}) → Bool
accepts (ok _) = true
accepts (err e) = false

all_zero-append : (xs ys : List ℕ) → all_zero (xs ++ ys) ≡ (all_zero xs && all_zero ys)
all_zero-append [] ys = refl
all_zero-append (x ∷ xs) ys = ground (arith, all_zero-append xs ys)

-- A read that reaches past the limit is refused.
too_long :
    (max total k : ℕ) (bytes : List ℕ) (r : Result (Unit {0}))
    → total + k ≡ max
    → k < length bytes
    → accepts (and_then (check_bytes max total bytes) r) ≡ false
too_long max total k bytes r h long = ground arith

cut_too_long :
    (max total k : ℕ) (bytes : List ℕ) (r : Result (Unit {0}))
    → total + k ≡ max
    → k < length bytes
    → accepts (and_then (check_bytes max total (take (suc k) bytes)) r) ≡ false
cut_too_long max total k bytes r h long =
    too_long max total k (take (suc k) bytes) r h (omega (arith, length-take (suc k) bytes))

accepts-check :
    (max total : ℕ) (bytes : List ℕ) (r : Result (Unit {0}))
    → total + length bytes ≤ max
    → accepts (and_then (check_bytes max total bytes) r) ≡ (all_zero bytes && accepts r)
accepts-check max total bytes (ok tt) h = ground arith
accepts-check max total bytes (err e) h = ground arith

accepts-end_of :
    (bytes : List ℕ) (end : Option String) → accepts (end_of end) ≡ comes_to_end (last bytes end)
accepts-end_of bytes none = refl
accepts-end_of bytes (some e) = refl

and_swap : (a b c d : Bool) → (a && (b && (c && d))) ≡ (b && ((a && c) && d))
and_swap true b c d = refl
and_swap false true c d = refl
and_swap false false c d = refl

verify_rest-limited :
    (max total k : ℕ) (r : Reader)
    → total + k ≡ max
    → accepts (verify_rest max total (limited (suc k) r))
      ≡ (leb (total + length (contents r)) max && (all_zero (contents r) && comes_to_end r))
unfolding verify_rest
verify_rest-limited max total k (last bytes end) h = elim (Bool-cases (leb (length bytes) k)) [
  | inl fits ↦
      let short : ltb (suc k) (length bytes) ≡ false = ground arith in
      let within : total + length bytes ≤ max = omega (arith, leb→le (length bytes) k fits, h) in
      let inside : leb (total + length bytes) max ≡ true = ground arith in
      rw
        (
          short,
          verify_rest,
          accepts-check max total bytes _ within,
          inside,
          accepts-end_of bytes end,
        )
        refl
  | inr long ↦
      let past : leb (total + length bytes) max ≡ false = ground arith in
      rw past (elim (Bool-cases (ltb (suc k) (length bytes))) [
        | inl cut ↦ rw (cut, verify_rest) (cut_too_long max total k bytes _ h (ground arith))
        | inr whole ↦ rw (whole, verify_rest) (too_long max total k bytes _ h (ground arith))
      ])
]
verify_rest-limited max total k (next bytes r) h = elim (Bool-cases (leb (length bytes) k)) [
  | inl fits ↦
      let less : suc k - length bytes ≡ suc (k - length bytes) = ground arith in
      let short : ltb (suc k) (length bytes) ≡ false = ground arith in
      let ih =
        verify_rest-limited max (total + length bytes) (k - length bytes) r
          (omega (arith, leb→le (length bytes) k fits, h)) in
      let sum : total + length bytes + length (contents r) ≡ total + length (bytes ++ contents r) =
        omega (arith, length-append bytes (contents r)) in
      rw
        (
          less,
          short,
          verify_rest,
          accepts-check max total bytes _ (omega (arith, leb→le (length bytes) k fits, h)),
          ih,
          sum,
          all_zero-append bytes (contents r),
        )
        (and_swap (all_zero bytes) (leb (total + length (bytes ++ contents r)) max)
          (all_zero (contents r)) (comes_to_end r))
  | inr long ↦
      let past : leb (total + length (bytes ++ contents r)) max ≡ false =
        ground (arith, length-append bytes (contents r)) in
      rw past (elim (Bool-cases (ltb (suc k) (length bytes))) [
        | inl cut ↦ rw (cut, verify_rest) (cut_too_long max total k bytes _ h (ground arith))
        | inr whole ↦ rw (whole, verify_rest) (too_long max total k bytes _ h (ground arith))
      ])
]

-- Whatever the sizes of its reads, a stream is accepted exactly if it comes to its end without an
-- error, is not longer than the limit, and is all zero.
pub verify_trailer_iff :
    (r : Reader)
    → accepts (verify_trailer r) ≡ (
        leb (length (contents r)) max_tar_padding_bytes
        && (all_zero (contents r) && comes_to_end r))
unfolding verify_trailer
verify_trailer_iff r =
    let count : 0 + length (contents r) ≡ length (contents r) = omega arith in
    rw (← count) (verify_rest-limited max_tar_padding_bytes 0 max_tar_padding_bytes r (omega arith))
