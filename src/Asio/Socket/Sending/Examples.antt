-- ===== src/Asio/Socket/Sending/Examples.antt =====
-- A concrete run of `Send` of src/Socket.cpp.
use icon.Prelude.{ℕ, ◌≤◌, ◌≡◌, refl, true, false, some, List, [], ◌∷◌, length, arith}
use icon.NumberBuffer.{set_value, get_occupied_bytes}
use icon.Message.{Message, create_optimal_buffer}
use icon.Asio.Socket.{Socket, valid}
use icon.Asio.Socket.Sending.{Write, send_message, Documented, StaysValid}
use icon.Asio.Socket.Sending.Wire.{Tells, send_message-Tells, send_message-ends, total}

abbrev hi : Message
hi = record { title = 104 ∷ 105 ∷ []; payload = 1 ∷ 0 ∷ 3 ∷ [] }

abbrev open_socket : Socket ℕ
open_socket = record {
  socket = some 4;
  endpoint = record { ip = b'1' ∷ []; port = 80 };
  buffer = 0 ∷ [];
  received_messages = [];
  fetch_request_size = 1;
}

-- The frame has 7 bytes. They go out in three rounds, one of which takes nothing.
abbrev rounds : List (Write ℕ)
rounds =
    record { poll = λ s. s; written = 3; failed = false }
    ∷ record { poll = λ s. s; written = 0; failed = false }
    ∷ record { poll = λ s. s; written = 4; failed = false }
    ∷ []

abbrev broken : List (Write ℕ)
broken =
    record { poll = λ s. s; written = 3; failed = false }
    ∷ record { poll = λ s. s; written = 2; failed = true }
    ∷ []

rounds-Documented : Documented rounds (length (create_optimal_buffer hi [])) 0
unfolding Documented create_optimal_buffer set_value get_occupied_bytes
rounds-Documented = (omega arith, (omega arith, (omega arith, tt)))

broken-Documented : Documented broken (length (create_optimal_buffer hi [])) 0
unfolding Documented create_optimal_buffer set_value get_occupied_bytes
broken-Documented = (omega arith, (omega arith, tt))

enough : length (create_optimal_buffer hi []) ≤ total rounds
unfolding total create_optimal_buffer set_value get_occupied_bytes
enough = omega arith

open_valid : valid open_socket ≡ true
unfolding valid
open_valid = refl

rounds-StaysValid : StaysValid rounds open_socket
unfolding StaysValid valid
rounds-StaysValid = (refl, (refl, (refl, tt)))

send_message-Tells_example :
    Tells (create_optimal_buffer hi []) (send_message broken open_socket hi)
send_message-Tells_example = send_message-Tells broken open_socket hi broken-Documented

send_message-ends_example :
    ((send_message rounds open_socket hi).answer ≡ some true)
    × ((send_message rounds open_socket hi).wire ≡ create_optimal_buffer hi [])
send_message-ends_example =
    send_message-ends rounds open_socket hi open_valid rounds-StaysValid rounds-Documented
      (refl, (refl, (refl, tt))) enough
