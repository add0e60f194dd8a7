-- ===== src/NumberBuffer/Decode.antt =====
-- What `SetBytes` reads, in plain arithmetic, on any bytes.
use icon.Prelude.{
  ℕ, suc, ◌+◌, ◌*◌, ◌%◌, ◌^◌, ◌≤◌, ◌<◌, ◌≡◌, refl, ap, subst, List, [], ◌∷◌, length, take, All,
  bit_and, bit_or, arith, ltb, Bool-cases, inl, inr, ltb→lt, ltb→le, take-all, length-take,
  length-take-le,
}
use icon.Prelude.Bits.{bit_and-low, bit_or-disjoint}
use icon.NumberBuffer.{NumberBuffer, IsByte, IsU64, u64, copy_bytes, read_loop, set_bytes}
use native.Mathlib.Nat.{pow-le-pow_right}
use native.Mathlib.Decide.{dec_lt}
use native.Mathlib.Numerals.{towards_suc}

pub pow_next : (i : ℕ) → 2 ^ ((i + 1) * 7) ≡ 128 * 2 ^ (i * 7)
pow_next i =
    let e : (i + 1) * 7 ≡ i * 7 + 7 = omega arith in
    let step = λ (s : ℕ). let g : 2 ^ (s + 7) ≡ 128 * 2 ^ s = simp towards_suc (omega arith) in g in
    rw e (step (i * 7))

-- One digit is added in, as long as the sum fits 64 bits.
pub digit_added :
    (i value b : ℕ)
    → b < 256
    → value < 2 ^ (i * 7)
    → value + b % 128 * 2 ^ (i * 7) < 2 ^ 64
    → bit_or value (u64 (bit_and b 0x7F * 2 ^ (i * 7))) ≡ value + b % 128 * 2 ^ (i * 7)
digit_added i value b hb below fits =
    rw (bit_and-low b hb) (ground (arith, bit_or-disjoint (i * 7) value (b % 128) below))

-- The tenth digit keeps its lowest bit alone.
top_digit_added :
    (value b : ℕ)
    → b < 256
    → value < 2 ^ 63
    → bit_or value (u64 (bit_and b 0x7F * 2 ^ (9 * 7))) ≡ value + b % 2 * 2 ^ 63
top_digit_added value b hb below = rw (bit_and-low b hb) (
    let e : u64 (b % 128 * 2 ^ (9 * 7)) ≡ b % 2 * 2 ^ 63 = omega arith in
    rw e (bit_or-disjoint 63 value (b % 2) below))

small_pow : (i : ℕ) → i ≤ 8 → 2 ^ (i * 7) ≤ 2 ^ 56
small_pow i h = pow-le-pow_right (omega arith) {j = 56} (omega arith)

-- Before the tenth byte the value stays below the next digit's weight.
digit_below :
    (i value b : ℕ)
    → b < 256
    → i ≤ 8
    → value < 2 ^ (i * 7)
    → (bit_or value (u64 (bit_and b 0x7F * 2 ^ (i * 7))) < 2 ^ ((i + 1) * 7))
      × (bit_or value (u64 (bit_and b 0x7F * 2 ^ (i * 7))) < 2 ^ 63)
digit_below i value b hb hi below =
    let p : ℕ = 2 ^ (i * 7) in
    let d : b % 128 * p ≤ 127 * p = grind arith in
    let q : p ≤ 2 ^ 56 = small_pow i hi in
    let e = digit_added i value b hb below (omega arith) in
    rw e (omega (arith, pow_next i), omega arith)

digit_bounds :
    (i value b : ℕ)
    → b < 256
    → i ≤ 9
    → value < 2 ^ (i * 7)
    → (bit_or value (u64 (bit_and b 0x7F * 2 ^ (i * 7))) < 2 ^ ((i + 1) * 7))
      × (bit_or value (u64 (bit_and b 0x7F * 2 ^ (i * 7))) < 2 ^ 64)
digit_bounds i value b hb hi below = elim (dec_lt i 9) [
  | yes early ↦
      let (next, fits) = digit_below i value b hb (omega arith) below in (next, omega arith)
  | no late ↦
      let e : i ≡ 9 = omega arith in
      let at = subst (λ j. value < 2 ^ (j * 7)) e below in
      rw e (rw (top_digit_added value b hb at) (omega arith))
]

-- What the loop can answer: no length, or one within what it was given, and a 64-bit value.
pub read_loop_bounds :
    (bs : List ℕ) (value i : ℕ)
    → All IsByte bs
    → i + length bs ≤ 10
    → value < 2 ^ (i * 7)
    → value < 2 ^ 64
    → IsU64 (read_loop bs value i).0 × ((read_loop bs value i).1 ≤ i + length bs)
unfolding read_loop
read_loop_bounds [] value i hb hi below fits = (fits, omega arith)
read_loop_bounds (b ∷ bs) value i (h, hb) hi below fits =
    let (next, small) = digit_bounds i value b h (omega arith) below in
    ground (arith, read_loop_bounds bs _ (i + 1) hb (omega arith) next small)

copy_bytes-take :
    (bytes span : List ℕ)
    → length span ≤ length bytes
    → take (length span) (copy_bytes bytes span) ≡ span
unfolding copy_bytes
copy_bytes-take [] [] h = refl
copy_bytes-take [] (d ∷ ds) h = absurd (omega arith)
copy_bytes-take (b ∷ bs) [] h = refl
copy_bytes-take (b ∷ bs) (d ∷ ds) h = ap (◌∷◌ d) (copy_bytes-take bs ds (omega arith))

pub length-copy_bytes : (bytes span : List ℕ) → length (copy_bytes bytes span) ≡ length bytes
unfolding copy_bytes
length-copy_bytes [] span = refl
length-copy_bytes (b ∷ bs) [] = refl
length-copy_bytes (b ∷ bs) (d ∷ ds) = ap suc (length-copy_bytes bs ds)

-- The first ten bytes, at most, decide.
abbrev pub reading : List ℕ → ℕ × ℕ
reading span = read_loop (take 10 span) 0 0

read_max :
    (bytes span : List ℕ) (n : ℕ)
    → length bytes ≡ 10
    → n ≡ length (take 10 span)
    → take n (copy_bytes bytes (take 10 span)) ≡ take 10 span
read_max bytes span n hb hn =
    rw hn (copy_bytes-take bytes (take 10 span) (omega (arith, length-take-le span 10)))

pub set_bytes-reading :
    (nb : NumberBuffer) (span : List ℕ)
    → length nb.bytes ≡ 10
    → set_bytes nb span ≡ (
      record { value = (reading span).0; bytes = copy_bytes nb.bytes (take 10 span) },
      (reading span).1,
    )
unfolding set_bytes
set_bytes-reading nb span hb = elim (Bool-cases (ltb 10 (length span))) [
  | inl long ↦
      let n = length-take span 10 (omega (arith, ltb→lt 10 (length span) long)) in
      rw (long, read_max nb.bytes span 10 hb (omega arith))
  | inr short ↦
      let n : length span ≤ 10 = ltb→le 10 (length span) short in
      let fits = copy_bytes-take nb.bytes span (omega arith) in
      rw (short, take-all span (length span) (omega arith), take-all span 10 n, fits)
]
