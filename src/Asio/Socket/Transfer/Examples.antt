-- ===== src/Asio/Socket/Transfer/Examples.antt =====
-- A message sent with `Send` of src/Socket.cpp in two pieces, and received in two others.
use icon.Prelude.{ℕ, ◌≡◌, refl, ◌≢◌, ◌⊎◌, true, false, some, List, [], ◌∷◌, ◌++◌, arith}
use icon.NumberBuffer.{set_value, get_occupied_bytes}
use icon.Message.{Message, create_optimal_buffer}
use icon.Asio.Socket.{valid}
use icon.Asio.Socket.Sending.{send_loop, send, send_message, Documented}
use icon.Asio.Socket.Examples.{greeting, greeting-IsMessage, at_peer, after_two, two_pieces}
use icon.Asio.Socket.Transfer.{Call, messages, send_each, DocumentedEach, send_each-Run}

abbrev one_call : List (Call ℕ)
one_call =
    record {
      writes =
          record { poll = λ s. s; written = 1; failed = false }
          ∷ record { poll = λ s. s; written = 2; failed = false }
          ∷ [];
      msg = greeting;
    }
    ∷ []

one_call-Documented : DocumentedEach one_call
unfolding Documented create_optimal_buffer set_value get_occupied_bytes
one_call-Documented = ((omega arith, (omega arith, tt)), tt)

one_call-wire : (send_each one_call (at_peer [] [] 1)).wire ≡ after_two.delivered ++ []
unfolding send_each send_message send send_loop valid create_optimal_buffer set_value
    get_occupied_bytes
one_call-wire = refl

send_each-Run_example :
    (todo : List Message) × ((after_two.popped ++ after_two.socket.received_messages) ++ todo
      ≡ messages one_call)
    × ((todo ≡ [])
        ⊎ ((send_each one_call (at_peer [] [] 1)).answer ≢ some true)
        ⊎ (◌≢◌ {A = List ℕ} [] []))
send_each-Run_example =
    send_each-Run one_call (at_peer [] [] 1) [] greeting-IsMessage one_call-Documented two_pieces
      one_call-wire
