-- ===== src/NumberBuffer/Encode.antt =====
-- What `SetValue` writes, in plain arithmetic.
use icon.Prelude.{
  ℕ, zero, suc, ◌+◌, ◌-◌, ◌/◌, ◌%◌, ◌^◌, ◌≤◌, ◌<◌, ◌≡◌, refl, ap, List, [], ◌∷◌, ◌++◌, length, set,
  replicate, All, ltb, le→ltb, if◌then◌else◌, bit_and, bit_or, arith, append_assoc, length-append,
}
use icon.Prelude.Bits.{bit_and_mask, bit_or-top, bit_and-top}
use icon.Prelude.WellFounded.{lt_wf}
use icon.NumberBuffer.{
  NumberBuffer, IsByte, IsU64, u8, set_value_loop, set_value, occupied_loop, get_occupied_bytes,
}
use mathlib.Core.WellFounded.{Acc}

-- The digits of `v` in base 128, lowest first, for `v` below 128 ^ (k + 1).
unfoldable pub groups : ℕ → ℕ → List ℕ
groups zero v = v ∷ []
groups (suc k) v =
    let rest = groups k (v / 128) in if ltb v 128 then v ∷ [] else (v % 128 + 128) ∷ rest

-- How many of the `k + 1` bytes stay 0.
unfoldable pub padding : ℕ → ℕ → ℕ
padding zero v = 0
padding (suc k) v = let rest = padding k (v / 128) in if ltb v 128 then suc k else rest

length-groups-padding : (k v : ℕ) → length (groups k v) + padding k v ≡ suc k
unfolding groups padding
length-groups-padding zero v = refl
length-groups-padding (suc k) v = ground (arith, length-groups-padding k (v / 128))

pub length-groups : (k v : ℕ) → (1 ≤ length (groups k v)) × (length (groups k v) ≤ suc k)
unfolding groups
length-groups zero v = omega arith
length-groups (suc k) v = ground (arith, length-groups k (v / 128))

one_le_pow : (k : ℕ) → 1 ≤ 128 ^ k
one_le_pow zero = omega arith
one_le_pow (suc k) = omega (arith, one_le_pow k)

at_least : (k v : ℕ) → 128 ^ suc k ≤ v → 128 ≤ v
at_least k v h = omega (arith, one_le_pow k)

-- A number of `k + 1` digits
pub length-groups_full : (k v : ℕ) → 128 ^ k ≤ v → length (groups k v) ≡ suc k
unfolding groups
length-groups_full zero v h = refl
length-groups_full (suc k) v h =
    rw (le→ltb v 128 (at_least k v h)) (ap suc (length-groups_full k (v / 128) (omega arith)))

pub groups-IsByte : (k v : ℕ) → v < 128 ^ suc k → All IsByte (groups k v)
unfolding groups
groups-IsByte zero v h = omega arith
groups-IsByte (suc k) v h = ground (arith, groups-IsByte k (v / 128) (omega arith))

last_digit : (val : ℕ) → val < 128 → u8 (bit_and val 127) ≡ val
last_digit val h = omega (arith, bit_and_mask val)

inner_digit : (val : ℕ) → bit_or (u8 (bit_and val 127)) 128 ≡ val % 128 + 128
inner_digit val = ground (arith, bit_and_mask val, bit_or-top (val % 128) (omega arith))

set-append_cons :
    (front : List ℕ) (i x v : ℕ) (back : List ℕ)
    → i ≡ length front
    → set (front ++ (x ∷ back)) i v ≡ front ++ (v ∷ back)
set-append_cons [] zero x v back h = refl
set-append_cons [] (suc i) x v back h = absurd (omega arith)
set-append_cons (f ∷ front) zero x v back h = absurd (omega arith)
set-append_cons (f ∷ front) (suc i) x v back h =
    ap (◌∷◌ f) (set-append_cons front i x v back (omega arith))

-- The loop writes the digits behind `front`, and stops at the last one.
set_value_loop-groups :
    (k i val : ℕ) (front : List ℕ) (w : Acc ◌<◌ val)
    → i ≡ length front
    → 0 < val
    → val < 128 ^ suc k
    → set_value_loop (front ++ replicate (suc k) 0) val i w
      ≡ (front ++ (groups k val ++ replicate (padding k val) 0), i + length (groups k val) - 1)
unfolding set_value_loop groups padding
set_value_loop-groups zero i val front (Acc.intro _ smaller) at pos h =
    ground (arith, last_digit val, set-append_cons front i 0 val [])
set_value_loop-groups (suc k) i val front (Acc.intro _ smaller) at pos h =
    let g : ℕ = val % 128 + 128 in
    let zeros : List ℕ = replicate (suc k) 0 in
    grind (
      arith,
      last_digit val,
      inner_digit val,
      set-append_cons front i 0 g zeros,
      set-append_cons front i 0 val zeros,
      append_assoc front (g ∷ []) zeros,
      append_assoc front (g ∷ []) (groups k (val / 128) ++ replicate (padding k (val / 128)) 0),
      length-append front (g ∷ []),
      length-groups k (val / 128),
      λ (w : Acc ◌<◌ (val / 128)) (more : 127 < val).
          set_value_loop-groups k (i + 1) (val / 128) (front ++ (g ∷ [])) w
            (omega (arith, length-append front (g ∷ []))) (omega arith) (omega arith),
    )

-- `SetValue` writes the digits of the value over cleared bytes and returns their number.
pub set_value-groups :
    (nb : NumberBuffer) (v : ℕ)
    → IsU64 v
    → set_value nb v
      ≡ (record { value = v; bytes = groups 9 v ++ replicate (padding 9 v) 0 }, length (groups 9 v))
unfolding set_value
set_value-groups nb zero h = unfold groups padding in refl
set_value-groups nb (suc v) h =
    let loop =
      set_value_loop-groups 9 0 (suc v) [] (lt_wf.apply (suc v)) refl (omega arith) (omega arith) in
    ground (arith, loop, length-groups 9 (suc v))

occupied_loop-groups :
    (k i v n : ℕ)
    → v < 128 ^ suc k
    → occupied_loop (groups k v ++ replicate n 0) i + 1 ≡ i + length (groups k v)
unfolding occupied_loop groups
occupied_loop-groups zero i v n h = ground (arith, bit_and-top v)
occupied_loop-groups (suc k) i v n h = ground (
  arith,
  bit_and-top v,
  bit_and-top (v % 128 + 128),
  length-groups k (v / 128),
  occupied_loop-groups k (i + 1) (v / 128) n,
)

-- Of a buffer that `SetValue` filled, `GetOccupiedBytes` is the number that `SetValue` returned.
pub get_occupied_bytes-groups :
    (v n : ℕ)
    → IsU64 v
    → get_occupied_bytes (record { value = v; bytes = groups 9 v ++ replicate n 0 })
      ≡ length (groups 9 v)
unfolding get_occupied_bytes
get_occupied_bytes-groups v n h = omega (arith, occupied_loop-groups 9 0 v n (omega arith))
