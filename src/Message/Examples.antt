-- ===== src/Message/Examples.antt =====
-- Concrete frames, and the theorems at concrete inputs.
use icon.Prelude.{
  ℕ, List, ◌-◌, ◌^◌, ◌<◌, ◌≡◌, ◌⊎◌, refl, true, false, [], ◌∷◌, ◌++◌, length, take, arith,
}
use icon.NumberBuffer.{number_buffer, set_value, set_bytes, get_occupied_bytes}
use icon.Message.{
  Message, message, done, undefined, create_optimal_buffer, can_read_full_message,
  try_read_message_from_buffer, read_found, c_string, range,
}
use icon.Message.RoundTrip.{IsMessage}
use icon.Message.Framing.{try_read-create, try_read-create_prefix}
use icon.Message.Faults.{try_read_unterminated, try_read_wraps}
use icon.Message.Agreement.{try_read_agrees, Found, Faulty}

abbrev hi : Message
hi = record { title = 104 ∷ 105 ∷ []; payload = 1 ∷ 0 ∷ 3 ∷ [] }

hi-IsMessage : IsMessage hi
hi-IsMessage = record { no_zero = omega arith; fits = omega arith }

-- The old content of the vector is dropped.
create_hi : create_optimal_buffer hi (7 ∷ 7 ∷ []) ≡ 6 ∷ 104 ∷ 105 ∷ 0 ∷ 1 ∷ 0 ∷ 3 ∷ []
unfolding create_optimal_buffer set_value get_occupied_bytes
create_hi = refl

read_hi :
    try_read_message_from_buffer message (6 ∷ 104 ∷ 105 ∷ 0 ∷ 1 ∷ 0 ∷ 3 ∷ 9 ∷ []) ≡ done (hi, 7)
unfolding try_read_message_from_buffer message set_bytes number_buffer read_found c_string range
read_hi = refl

try_read-create_example :
    (can_read_full_message (create_optimal_buffer hi [] ++ (9 ∷ [])) ≡ true)
    × (try_read_message_from_buffer message (create_optimal_buffer hi [] ++ (9 ∷ []))
        ≡ done (hi, length (create_optimal_buffer hi [])))
try_read-create_example = try_read-create hi message [] (9 ∷ []) hi-IsMessage

long_enough : 3 < length (create_optimal_buffer hi [])
unfolding create_optimal_buffer set_value get_occupied_bytes
long_enough = omega arith

try_read-create_prefix_example :
    (can_read_full_message (take 3 (create_optimal_buffer hi [])) ≡ false)
    × (try_read_message_from_buffer message (take 3 (create_optimal_buffer hi []))
        ≡ done (message, 0))
try_read-create_prefix_example = try_read-create_prefix hi message [] 3 hi-IsMessage long_enough

try_read_unterminated_example :
    (can_read_full_message (
        take (set_value number_buffer 2).1 (set_value number_buffer 2).0.bytes
        ++ (65 ∷ 66 ∷ [] ++ []))
      ≡ true)
    × (try_read_message_from_buffer message (
          take (set_value number_buffer 2).1 (set_value number_buffer 2).0.bytes
          ++ (65 ∷ 66 ∷ [] ++ []))
        ≡ undefined)
try_read_unterminated_example =
    try_read_unterminated number_buffer message (65 ∷ 66 ∷ []) [] (omega arith) (omega arith)

-- A message with a byte behind it
abbrev read_on : List ℕ
read_on = 6 ∷ 104 ∷ 105 ∷ 0 ∷ 1 ∷ 0 ∷ 3 ∷ 9 ∷ []

try_read_agrees_example :
    ((can_read_full_message read_on ≡ false)
      × (try_read_message_from_buffer message read_on ≡ done (message, 0)))
    ⊎ ((can_read_full_message read_on ≡ true)
        × (Found message read_on
              (set_bytes number_buffer read_on).0.value
              (set_bytes number_buffer read_on).1
            ⊎ Faulty message read_on
                (set_bytes number_buffer read_on).0.value
                (set_bytes number_buffer read_on).1))
try_read_agrees_example = try_read_agrees message read_on (omega arith)

try_read_wraps_example :
    (can_read_full_message (
        take (set_value number_buffer (2 ^ 64 - 1)).1 (set_value number_buffer (2 ^ 64 - 1)).0.bytes
        ++ (65 ∷ []))
      ≡ true)
    × (try_read_message_from_buffer message (
          take
            (set_value number_buffer (2 ^ 64 - 1)).1
            (set_value number_buffer (2 ^ 64 - 1)).0.bytes
          ++ (65 ∷ []))
        ≡ undefined)
try_read_wraps_example =
    try_read_wraps number_buffer message (2 ^ 64 - 1) (65 ∷ []) (omega arith) (omega arith)
      (omega arith)
