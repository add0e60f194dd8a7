-- ===== src/NumberBuffer/RoundTrip.antt =====
-- What `SetValue` writes is what `SetBytes` reads, and a part of it is read as no number.
use icon.Prelude.{
  ℕ, zero, suc, ◌+◌, ◌-◌, ◌*◌, ◌/◌, ◌%◌, ◌^◌, ◌≤◌, ◌<◌, ◌≡◌, refl, ap, ◌∙◌, List, [], ◌∷◌, ◌++◌,
  length, take, All, bit_and, bit_or, ◌≢◌, All-take, length-take-le, length-take_le_length, arith,
  ltb→lt, Bool-cases, inl, inr, ltb, take-append_past, take-append_length, take-all, replicate,
  length-append,
}
use icon.Prelude.Bits.{bit_and-top}
use native.Mathlib.Nat.{div-add-mod}
use icon.NumberBuffer.{
  NumberBuffer, IsByte, IsU64, u64, set_value, get_occupied_bytes, read_loop, set_bytes,
}
use mathlib.Core.Logic.{◌↔◌}
use icon.NumberBuffer.Encode.{
  groups, padding, length-groups, set_value-groups, get_occupied_bytes-groups,
}
use icon.NumberBuffer.Decode.{
  pow_next, digit_added, reading, set_bytes-reading, read_loop_bounds, length-copy_bytes,
}

-- The lowest digit of `w` and the rest, at the weight `p`.
split_digit : (w p : ℕ) → w % 128 * p + w / 128 * (128 * p) ≡ w * p
split_digit w p = omega (arith, ap (λ (t : ℕ). t * p) (div-add-mod w 128))

-- One byte with the top bit, and a last byte.
read_inner :
    (w i value : ℕ) (rest : List ℕ)
    → value < 2 ^ (i * 7)
    → value + w % 128 * 2 ^ (i * 7) < 2 ^ 64
    → read_loop ((w % 128 + 128) ∷ rest) value i
      ≡ read_loop rest (value + w % 128 * 2 ^ (i * 7)) (i + 1)
unfolding read_loop
read_inner w i value rest below fits =
    ground (arith, bit_and-top (w % 128 + 128), digit_added i value (w % 128 + 128))

read_last :
    (w i value : ℕ) (rest : List ℕ)
    → w < 128
    → value < 2 ^ (i * 7)
    → value + w * 2 ^ (i * 7) < 2 ^ 64
    → read_loop (w ∷ rest) value i ≡ (value + w * 2 ^ (i * 7), i + 1)
unfolding read_loop
read_last w i value rest hw below fits = ground (arith, bit_and-top w, digit_added i value w)

-- `w` is what is still to be read; it counts from digit `i` on.
read_loop-groups :
    (k w i value : ℕ) (rest : List ℕ)
    → w < 128 ^ suc k
    → value < 2 ^ (i * 7)
    → value + w * 2 ^ (i * 7) < 2 ^ 64
    → read_loop (groups k w ++ rest) value i ≡ (value + w * 2 ^ (i * 7), i + length (groups k w))
unfolding groups
read_loop-groups zero w i value rest hw below fits = read_last w i value rest hw below fits
read_loop-groups (suc k) w i value rest hw below fits = elim (Bool-cases (ltb w 128)) [
  | inl last ↦ rw last (read_last w i value rest (ltb→lt w 128 last) below fits)
  | inr more ↦
      let p : ℕ = 2 ^ (i * 7) in
      let split = split_digit w p in
      let digit : w % 128 * p ≤ 127 * p = grind arith in
      let value' : ℕ = value + w % 128 * p in
      let next : value' < 2 ^ ((i + 1) * 7) = omega (arith, pow_next i) in
      let weight : w / 128 * 2 ^ ((i + 1) * 7) ≡ w / 128 * (128 * p) =
        ap (λ (t : ℕ). w / 128 * t) (pow_next i) in
      rw (more, read_inner w i value (groups k (w / 128) ++ rest) below (omega arith))
        (read_loop-groups k (w / 128) (i + 1) value' rest (omega arith) next (omega arith)
          ∙ ground arith)
]

take-groups :
    (v : ℕ) (rest : List ℕ)
    → take 10 (groups 9 v ++ rest) ≡ groups 9 v ++ take (10 - length (groups 9 v)) rest
take-groups v rest = take-append_past (groups 9 v) rest 10 (length-groups 9 v).1

-- The digits of a 64-bit number, with anything behind them.
pub reading-groups :
    (v : ℕ) (rest : List ℕ) → IsU64 v → reading (groups 9 v ++ rest) ≡ (v, length (groups 9 v))
reading-groups v rest h =
    let loop =
      read_loop-groups 9 v 0 0 (take (10 - length (groups 9 v)) rest) (omega arith) (omega arith)
        (omega arith) in
    rw (take-groups v rest) (loop ∙ ground arith)

nil-ne-append : (front : List ℕ) (x : ℕ) (back : List ℕ) → [] ≢ front ++ (x ∷ back)
nil-ne-append front x back e = omega (arith, ap length e, length-append front (x ∷ back))

-- A proper part of the digits has the top bit set on each byte, so the loop runs out of it.
read_loop-part :
    (k w i value x : ℕ) (front back : List ℕ)
    → w < 128 ^ suc k
    → groups k w ≡ front ++ (x ∷ back)
    → (read_loop front value i).1 ≡ 0
unfolding read_loop groups
read_loop-part k w i value x [] back hw e = refl
read_loop-part zero w i value x (f ∷ front) back hw e = ground (arith, nil-ne-append front x back)
read_loop-part (suc k) w i value x (f ∷ front) back hw e = ground (
  arith,
  nil-ne-append front x back,
  bit_and-top f,
  read_loop-part k (w / 128) (i + 1) (bit_or value (u64 (bit_and f 0x7F * 2 ^ (i * 7)))) x front
      back (omega arith),
)

-- The answer is 0 exactly when each byte has the top bit set.
read_loop-zero :
    (bs : List ℕ) (value i : ℕ)
    → All IsByte bs
    → (read_loop bs value i).1 ≡ 0
    → All (λ b. 128 ≤ b) bs
unfolding read_loop
read_loop-zero [] value i hb e = tt
read_loop-zero (b ∷ bs) value i (h, hb) e = ground (
  arith,
  bit_and-top b,
  read_loop-zero bs (bit_or value (u64 (bit_and b 0x7F * 2 ^ (i * 7)))) (i + 1) hb,
)

read_loop-continues :
    (bs : List ℕ) (value i : ℕ)
    → All IsByte bs
    → All (λ b. 128 ≤ b) bs
    → (read_loop bs value i).1 ≡ 0
unfolding read_loop
read_loop-continues [] value i hb top = refl
read_loop-continues (b ∷ bs) value i (h, hb) (t, top) = ground (
  arith,
  bit_and-top b,
  read_loop-continues bs (bit_or value (u64 (bit_and b 0x7F * 2 ^ (i * 7)))) (i + 1) hb top,
)

module _ (nb : NumberBuffer) (ten : length nb.bytes ≡ 10) where
  pub set_bytes-groups :
      (v : ℕ) (rest : List ℕ)
      → IsU64 v
      → ((set_bytes nb (groups 9 v ++ rest)).0.value ≡ v)
        × ((set_bytes nb (groups 9 v ++ rest)).1 ≡ length (groups 9 v))
  set_bytes-groups v rest h =
      rw (set_bytes-reading nb (groups 9 v ++ rest) ten, reading-groups v rest h) (refl, refl)

  -- On bytes that end before the number does, `SetBytes` answers 0.
  pub set_bytes_part :
      (v x : ℕ) (front back : List ℕ)
      → IsU64 v
      → groups 9 v ≡ front ++ (x ∷ back)
      → (set_bytes nb front).1 ≡ 0
  set_bytes_part v x front back h e =
      let whole = ap length e in
      let short : length front ≤ 10 =
        omega (arith, length-append front (x ∷ back), (length-groups 9 v).1) in
      rw (set_bytes-reading nb front ten, take-all front 10 short)
        (read_loop-part 9 v 0 0 x front back (omega arith) e)

-- For every 64-bit `v`, the bytes that `SetValue` counts, whatever follows them, are read back by
-- `SetBytes` as `v` and that count. The count is 1 to 10, and `GetOccupiedBytes` gives it too.
pub set_bytes-set_value :
    (nb nb' : NumberBuffer) (v : ℕ) (rest : List ℕ)
    → length nb'.bytes ≡ 10
    → IsU64 v
    → ((set_bytes nb' (take (set_value nb v).1 (set_value nb v).0.bytes ++ rest)).0.value ≡ v)
      × ((set_bytes nb' (take (set_value nb v).1 (set_value nb v).0.bytes ++ rest)).1
          ≡ (set_value nb v).1)
      × (get_occupied_bytes (set_value nb v).0 ≡ (set_value nb v).1)
      × (1 ≤ (set_value nb v).1)
      × ((set_value nb v).1 ≤ 10)
set_bytes-set_value nb nb' v rest ten h =
    let cut =
      take-append_length (groups 9 v) (replicate (padding 9 v) 0) (length (groups 9 v)) refl in
    let (value, count) = set_bytes-groups nb' ten v rest h in
    let (lo, hi) = length-groups 9 v in
    rw (set_value-groups nb v h, cut)
      (value, count, get_occupied_bytes-groups v (padding 9 v) h, lo, hi)

-- `SetBytes` answers 0 on every proper prefix of the bytes that `SetValue` counts.
pub set_bytes-prefix :
    (nb nb' : NumberBuffer) (v x : ℕ) (front back : List ℕ)
    → length nb'.bytes ≡ 10
    → IsU64 v
    → take (set_value nb v).1 (set_value nb v).0.bytes ≡ front ++ (x ∷ back)
    → (set_bytes nb' front).1 ≡ 0
set_bytes-prefix nb nb' v x front back ten h e =
    let cut =
      take-append_length (groups 9 v) (replicate (padding 9 v) 0) (length (groups 9 v)) refl in
    set_bytes_part nb' ten v x front back h (rw (set_value-groups nb v h, cut) at e)

-- On any bytes `SetBytes` keeps the array at 10 bytes, gives a 64-bit value, and a count that is
-- within the span and within 10. The count is 0 exactly when each of the first ten bytes (of all, if
-- there are fewer) has its top bit set.
pub set_bytes_bounds :
    (nb : NumberBuffer) (span : List ℕ)
    → length nb.bytes ≡ 10
    → All IsByte span
    → (length (set_bytes nb span).0.bytes ≡ 10)
      × IsU64 (set_bytes nb span).0.value
      × ((set_bytes nb span).1 ≤ length span)
      × ((set_bytes nb span).1 ≤ 10)
      × (((set_bytes nb span).1 ≡ 0) ↔ All (λ b. 128 ≤ b) (take 10 span))
set_bytes_bounds nb span ten hb =
    let bytes = All-take IsByte span 10 hb in
    let (fits, count) =
      read_loop_bounds (take 10 span) 0 0 bytes (omega (arith, length-take-le span 10))
        (omega arith) (omega arith) in
    rw (set_bytes-reading nb span ten) (
      length-copy_bytes nb.bytes (take 10 span) ∙ ten,
      fits,
      omega (arith, length-take_le_length span 10),
      omega (arith, length-take-le span 10),
      (read_loop-zero (take 10 span) 0 0 bytes, read_loop-continues (take 10 span) 0 0 bytes),
    )
