-- ===== src/Process/Buffer.antt =====
-- The capped buffer of a subprocess's output (packages/server/internal/platform/process/buffer.go).
use latexmk.Prelude.{
  ℕ, zero, suc, ◌+◌, ◌-◌, ◌≤◌, ◌≡◌, refl, Bool, true, false, ◌||◌, List, [], ◌∷◌, ◌++◌, length,
  length-append, take, sym, length-take, ltb, ◌==◌, if◌then◌else◌, arith, ◌∙◌, ap,
}
use Prim.Native.Nat.{min}
use mathlib.Core.List.{append-nil, append_assoc}

pub record CappedBuffer : Type 0 where
  pub buf : List ℕ
  pub max : ℕ
  pub truncated : Bool

unfoldable pub new_capped_buffer : ℕ → CappedBuffer
new_capped_buffer max = record { buf = []; max = max; truncated = false }

-- `Write`: the buffer afterwards, and the number of bytes that the writer is told were taken.
unfoldable pub write : List ℕ → CappedBuffer → CappedBuffer × ℕ
write [] b = (b, 0)
write (x ∷ xs) b =
    let p = x ∷ xs in
    let remaining = b.max - length b.buf in
    if remaining == 0
    then (record b { truncated = true }, length p)
    else if ltb remaining (length p)
    then (record b { buf = b.buf ++ take remaining p; truncated = true }, length p)
    else (record b { buf = b.buf ++ p }, length p)

unfoldable pub write_all : List (List ℕ) → CappedBuffer → CappedBuffer
write_all [] b = b
write_all (p ∷ ps) b = write_all ps (write p b).0

abbrev pub concat : List (List ℕ) → List ℕ
concat [] = []
concat (p ∷ ps) = p ++ concat ps

take-append : (n : ℕ) (xs ys : List ℕ) → take n (xs ++ ys) ≡ take n xs ++ take (n - length xs) ys
take-append zero xs ys = let e : 0 - length xs ≡ 0 = omega arith in rw e
take-append (suc n) [] ys = let e : suc n - 0 ≡ suc n = omega arith in rw e
take-append (suc n) (x ∷ xs) ys =
    let e : suc n - suc (length xs) ≡ n - length xs = omega arith in
    rw e (ap (◌∷◌ x) (take-append n xs ys))

take-short : (xs : List ℕ) (n : ℕ) → length xs ≤ n → take n xs ≡ xs
take-short [] zero short = refl
take-short [] (suc n) short = refl
take-short (x ∷ xs) zero short = absurd (omega arith)
take-short (x ∷ xs) (suc n) short = rw (take-short xs n (omega arith)) refl

-- What the buffer holds of the bytes written so far.
pub record Holds (all : List ℕ) (max : ℕ) (b : CappedBuffer) : Type 0 where
  pub kept : b.buf ≡ take max all
  pub cap : b.max ≡ max
  pub noted : b.truncated ≡ ltb max (length all)

write-buf :
    (p : List ℕ) (b : CappedBuffer) → (write p b).0.buf ≡ b.buf ++ take (b.max - length b.buf) p
unfolding write
write-buf [] b = rw (take-short [] (b.max - length b.buf) (omega arith), append-nil b.buf)
write-buf (x ∷ xs) b = ground (arith, take-short (x ∷ xs) (b.max - length b.buf), append-nil b.buf)

write-max : (p : List ℕ) (b : CappedBuffer) → (write p b).0.max ≡ b.max
unfolding write
write-max [] b = refl
write-max (x ∷ xs) b = ground arith

write-truncated :
    (p : List ℕ) (b : CappedBuffer)
    → (write p b).0.truncated ≡ (b.truncated || ltb (b.max - length b.buf) (length p))
unfolding write
write-truncated [] b = ground arith
write-truncated (x ∷ xs) b = ground arith

past_max : (n a p : ℕ) → (ltb n a || ltb (n - min n a) p) ≡ ltb n (a + p)
past_max n a p = ground arith

write-Holds :
    (all : List ℕ) (max : ℕ) (p : List ℕ) (b : CappedBuffer)
    → Holds all max b
    → Holds (all ++ p) max (write p b).0
write-Holds all max p b h =
    let left : max - length (take max all) ≡ max - length all =
      omega (arith, length-take max all) in
    record {
      kept = write-buf p b ∙ rw (h.cap, h.kept, left, take-append max all p);
      cap = write-max p b ∙ h.cap;
      noted =
          write-truncated p b
          ∙ rw (
            h.cap,
            h.kept,
            h.noted,
            length-take max all,
            length-append all p,
            past_max max (length all) (length p),
          );
    }

write_all-Holds :
    (ps : List (List ℕ)) (all : List ℕ) (max : ℕ) (b : CappedBuffer)
    → Holds all max b
    → Holds (all ++ concat ps) max (write_all ps b)
unfolding write_all
write_all-Holds [] all max b h = rw (append-nil all) h
write_all-Holds (p ∷ ps) all max b h =
    let ih = write_all-Holds ps (all ++ p) max (write p b).0 (write-Holds all max p b h) in
    rw (sym (append_assoc all p (concat ps))) ih

-- After any series of writes to a new buffer, however it is cut into chunks, the buffer holds the
-- first `max` bytes of all that was written, and it is marked truncated exactly when more was written
-- than that.
pub write_all_prefix :
    (ps : List (List ℕ)) (max : ℕ)
    → ((write_all ps (new_capped_buffer max)).buf ≡ take max (concat ps))
      × ((write_all ps (new_capped_buffer max)).truncated ≡ ltb max (length (concat ps)))
unfolding new_capped_buffer
write_all_prefix ps max =
    let h =
      write_all-Holds ps [] max (new_capped_buffer max) (record {
        kept = sym (take-short [] max (omega arith));
        cap = refl;
        noted = ground arith;
      }) in
    (h.kept, h.noted)
