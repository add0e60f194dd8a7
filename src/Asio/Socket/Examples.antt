-- ===== src/Asio/Socket/Examples.antt =====
-- A message that arrives in two pieces, and the theorems at that run.
use icon.Prelude.{ℕ, ◌≡◌, refl, true, false, Option, some, List, [], ◌∷◌, arith, All}
use icon.NumberBuffer.{number_buffer, set_value, set_bytes, get_occupied_bytes}
use icon.Message.{
  Message, done, create_optimal_buffer, try_read_message_from_buffer, read_found, c_string, range,
}
use icon.Message.RoundTrip.{IsMessage}
use icon.Endpoint.{Endpoint}
use icon.Asio.Socket.{
  Socket, Request, valid, resize, get_buffer_message_completition, request_data_fetch, take_message,
  process_buffer, fetch_data, finalize_connecting,
}
use icon.Asio.Socket.Stream.{Completes, State, start, Run, connect, receive, wire, InOrder}
use icon.Asio.Socket.Delivery.{Run-InOrder, Run-receives}

abbrev pub greeting : Message
greeting = record { title = 65 ∷ []; payload = [] }

pub greeting-IsMessage : All IsMessage (greeting ∷ [])
greeting-IsMessage = (record { no_zero = omega arith; fits = omega arith }, tt)

abbrev pub peer : Endpoint
peer = record { ip = 49 ∷ []; port = 80 }

abbrev pub at_peer : List ℕ → List Message → ℕ → Socket ℕ
at_peer buffer queue n = record {
  socket = some 7;
  endpoint = peer;
  buffer = buffer;
  received_messages = queue;
  fetch_request_size = n;
}

abbrev waiting : ℕ → ℕ → Option Request
waiting from bytes = some (record { from = from; bytes = bytes })

abbrev step_one : Socket ℕ × Option Request
step_one = (at_peer (2 ∷ 0 ∷ 0 ∷ []) [] 2, waiting 1 2)

abbrev pub step_two : Socket ℕ × Option Request
step_two = (at_peer (0 ∷ []) (greeting ∷ []) 1, waiting 0 1)

fetch_one : fetch_data (at_peer (2 ∷ []) [] 1) false 1 ≡ done step_one
unfolding fetch_data process_buffer get_buffer_message_completition request_data_fetch set_bytes
    number_buffer
fetch_one = refl

fetch_two : fetch_data (at_peer (2 ∷ 65 ∷ 0 ∷ []) [] 2) false 2 ≡ done step_two
unfolding fetch_data process_buffer get_buffer_message_completition request_data_fetch set_bytes
    number_buffer take_message try_read_message_from_buffer read_found c_string range
fetch_two = refl

first_byte :
    Completes
      (start {T = ℕ} 7 peer).socket
      (record { from = 0; bytes = 1 })
      (2 ∷ [])
      (at_peer (2 ∷ []) [] 1)
unfolding finalize_connecting request_data_fetch valid resize
first_byte = record {
  same = refl;
  size = refl;
  kept = refl;
  filled = refl;
  some_byte = omega arith;
  fits = omega arith;
}

other_bytes :
    Completes step_one.0
      (record { from = 1; bytes = 2 })
      (65 ∷ 0 ∷ [])
      (at_peer (2 ∷ 65 ∷ 0 ∷ []) [] 2)
other_bytes = record {
  same = refl;
  size = refl;
  kept = refl;
  filled = refl;
  some_byte = omega arith;
  fits = omega arith;
}

abbrev after_one : State ℕ
after_one = record { socket = step_one.0; request = step_one.1; delivered = 2 ∷ []; popped = [] }

abbrev pub after_two : State ℕ
after_two = record {
  socket = step_two.0;
  request = step_two.1;
  delivered = 2 ∷ 65 ∷ 0 ∷ [];
  popped = [];
}

first_request : (start {T = ℕ} 7 peer).request ≡ waiting 0 1
unfolding finalize_connecting request_data_fetch valid resize
first_request = refl

one_piece : Run {T = ℕ} 7 peer after_one
one_piece = receive (2 ∷ []) connect first_request first_byte fetch_one

pub two_pieces : Run {T = ℕ} 7 peer after_two
two_pieces = receive (65 ∷ 0 ∷ []) one_piece refl other_bytes fetch_two

wire-greeting : wire (greeting ∷ []) ≡ 2 ∷ 65 ∷ 0 ∷ []
unfolding wire create_optimal_buffer set_value get_occupied_bytes
wire-greeting = refl

Run-InOrder_example : InOrder (greeting ∷ []) after_one
Run-InOrder_example =
    Run-InOrder (greeting ∷ []) (65 ∷ 0 ∷ []) greeting-IsMessage one_piece wire-greeting

Run-receives_example :
    (b : Socket ℕ × Option Request) × (fetch_data (at_peer (2 ∷ 65 ∷ 0 ∷ []) [] 2) false 2 ≡ done b)
    × (valid b.0 ≡ true)
    × (r' : Request) × (b.1 ≡ some r')
Run-receives_example =
    Run-receives (greeting ∷ []) (65 ∷ 0 ∷ []) [] greeting-IsMessage one_piece wire-greeting refl
      other_bytes
