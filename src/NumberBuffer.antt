-- ===== src/NumberBuffer.antt =====
-- `NumberBuffer` of src/ASIO.hpp and src/ASIO.cpp: a 64-bit number beside its bytes, seven bits to a
-- byte, lowest first, the top bit set on each byte but the last. A pointer with a length is the
-- list of the bytes that it spans.
pub mod Encode
pub mod Decode
pub mod RoundTrip
mod Examples
use icon.Prelude.{
  ℕ, zero, suc, ◌+◌, ◌*◌, ◌/◌, ◌%◌, ◌^◌, ◌<◌, Bool, List, [], ◌∷◌, length, set, take, replicate,
  ltb, ◌==◌, if◌then◌else◌, bit_and, bit_or, arith,
}
use mathlib.Core.Logic.{dite}
use mathlib.Core.WellFounded.{Acc}
use native.Mathlib.Decide.{dec_lt}
use icon.Prelude.WellFounded.{lt_wf}

abbrev pub u64 : ℕ → ℕ
u64 n = n % 2 ^ 64

abbrev pub u8 : ℕ → ℕ
u8 n = n % 256

abbrev pub IsByte : ℕ → Type 0
IsByte b = b < 256

abbrev pub IsU64 : ℕ → Type 0
IsU64 v = v < 2 ^ 64

-- `bytes` is an array of 10.
pub record NumberBuffer : Type 0 where
  pub value : ℕ
  pub bytes : List ℕ

-- The default constructor.
unfoldable pub number_buffer : NumberBuffer
number_buffer = record { value = 0; bytes = replicate 10 0 }

shift_shrinks : (val : ℕ) → 127 < val → val / 2 ^ 7 < val
shift_shrinks val h = omega arith

-- The `while` of `SetValue`: the bytes written and the index `i` at which the loop stops.
set_value_loop : List ℕ → (val : ℕ) → ℕ → Acc ◌<◌ val → List ℕ × ℕ
set_value_loop bytes val i (Acc.intro _ smaller) =
    dite (dec_lt 0 val)
      (λ _.
        dite (dec_lt 127 val)
          (λ more.
            set_value_loop (set bytes i (bit_or (u8 (bit_and val 127)) 128)) (val / 2 ^ 7) (i + 1)
              (smaller _ (shift_shrinks val more)))
          (λ _. (set bytes i (u8 (bit_and val 127)), i)))
      (λ _. (bytes, i))

unfoldable pub set_value : NumberBuffer → ℕ → NumberBuffer × ℕ
unfolding set_value_loop lt_wf dec_lt shift_shrinks
set_value nb val =
    let cleared = replicate 10 0 in
    if val == 0
    then (record { value = val; bytes = set cleared 0 0 }, 1)
    else let (bytes, i) = set_value_loop cleared val 0 (lt_wf.apply val) in
      (record { value = val; bytes = bytes }, i + 1)

-- `for(; i<10 && bytes[i]&128; ++i)` over the bytes from `i` on.
occupied_loop : List ℕ → ℕ → ℕ
occupied_loop [] i = i
occupied_loop (b ∷ bs) i =
    let rest = occupied_loop bs (i + 1) in if bit_and b 128 == 0 then i else rest

unfoldable pub get_occupied_bytes : NumberBuffer → ℕ
unfolding occupied_loop
get_occupied_bytes nb = occupied_loop nb.bytes 0 + 1

-- `bytes[i] = data[i]` for the length of `data`.
pub copy_bytes : (bytes source : List ℕ) → List ℕ
copy_bytes [] source = []
copy_bytes (b ∷ bs) [] = b ∷ bs
copy_bytes (b ∷ bs) (d ∷ ds) = d ∷ copy_bytes bs ds

-- The second loop of `SetBytes`, over the bytes from `i` to `max`: the value, and the length or 0.
pub read_loop : List ℕ → (value i : ℕ) → ℕ × ℕ
read_loop [] value i = (value, 0)
read_loop (b ∷ bs) value i =
    let value' = bit_or value (u64 (bit_and b 0x7F * 2 ^ (i * 7))) in
    let rest = read_loop bs value' (i + 1) in if bit_and b 128 == 0 then (value', i + 1) else rest

unfoldable pub set_bytes : NumberBuffer → List ℕ → NumberBuffer × ℕ
unfolding copy_bytes read_loop
set_bytes nb span =
    let max = if ltb 10 (length span) then 10 else length span in
    let bytes = copy_bytes nb.bytes (take max span) in
    let (value, n) = read_loop (take max bytes) 0 0 in (record { value = value; bytes = bytes }, n)

-- NumberBuffer(uint64_t) and NumberBuffer(uint8_t*, size_t), in memory that holds anything
unfoldable pub of_value : NumberBuffer → ℕ → NumberBuffer
unfolding set_value
of_value memory val = (set_value memory val).0

unfoldable pub of_bytes : NumberBuffer → List ℕ → NumberBuffer
unfolding set_bytes
of_bytes memory span = (set_bytes memory span).0

-- The copy and move constructors and the assignment
unfoldable pub copy : NumberBuffer → NumberBuffer
copy other = record { value = other.value; bytes = other.bytes }
