-- ===== src/NumberBuffer/Examples.antt =====
-- Concrete runs of `NumberBuffer`, and the theorems at concrete inputs.
use icon.Prelude.{◌≤◌, ◌≡◌, refl, [], ◌∷◌, ◌++◌, length, take, replicate, All, arith}
use mathlib.Core.Logic.{◌↔◌}
use icon.NumberBuffer.{IsU64, number_buffer, set_value, set_bytes, get_occupied_bytes}
use icon.NumberBuffer.RoundTrip.{set_bytes-set_value, set_bytes_bounds}

set_value_300 :
    set_value number_buffer 300 ≡ (record { value = 300; bytes = 0xac ∷ 2 ∷ replicate 8 0 }, 2)
unfolding set_value
set_value_300 = refl

-- Stale bytes of an earlier number are cleared.
set_value_twice : (set_value (set_value number_buffer 300).0 5).0.bytes ≡ 5 ∷ replicate 9 0
unfolding set_value
set_value_twice = refl

set_bytes_300 : (set_bytes number_buffer (0xac ∷ 2 ∷ 7 ∷ [])).0.value ≡ 300
unfolding set_bytes number_buffer
set_bytes_300 = refl

ten_bytes : length (number_buffer.bytes) ≡ 10
unfolding number_buffer
ten_bytes = refl

cut_300 :
    take (set_value number_buffer 300).1 (set_value number_buffer 300).0.bytes
    ≡ (0xac ∷ []) ++ (2 ∷ [])
unfolding set_value
cut_300 = refl

set_bytes-set_value_example :
    ((set_bytes number_buffer (
        take (set_value number_buffer 300).1 (set_value number_buffer 300).0.bytes
        ++ (9 ∷ []))).0.value
      ≡ 300)
    × ((set_bytes number_buffer (
          take (set_value number_buffer 300).1 (set_value number_buffer 300).0.bytes ++ (9 ∷ []))).1
        ≡ (set_value number_buffer 300).1)
    × (get_occupied_bytes (set_value number_buffer 300).0 ≡ (set_value number_buffer 300).1)
    × (1 ≤ (set_value number_buffer 300).1)
    × ((set_value number_buffer 300).1 ≤ 10)
set_bytes-set_value_example =
    set_bytes-set_value number_buffer number_buffer 300 (9 ∷ []) ten_bytes (omega arith)

set_bytes_bounds_example :
    (length (set_bytes number_buffer (0xac ∷ 2 ∷ [])).0.bytes ≡ 10)
    × IsU64 (set_bytes number_buffer (0xac ∷ 2 ∷ [])).0.value
    × ((set_bytes number_buffer (0xac ∷ 2 ∷ [])).1 ≤ 2)
    × ((set_bytes number_buffer (0xac ∷ 2 ∷ [])).1 ≤ 10)
    × (((set_bytes number_buffer (0xac ∷ 2 ∷ [])).1 ≡ 0) ↔ All (λ b. 128 ≤ b) (0xac ∷ 2 ∷ []))
set_bytes_bounds_example = set_bytes_bounds number_buffer (0xac ∷ 2 ∷ []) ten_bytes (omega arith)
