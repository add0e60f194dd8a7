-- ===== src/Ssl/Examples.antt =====
-- Concrete runs of src/SSL.cpp. A stream, an acceptor and a context are numbers.
use icon.Prelude.{ℕ, ◌≡◌, true, false, none, some, List, [], ◌∷◌}
use icon.Message.{◌>>=◌, done}
use icon.Endpoint.{Endpoint, no_endpoint}
use icon.Asio.Socket.{Socket, new_socket}
use icon.Asio.Server.{start_listening}
use icon.Asio.Server.Accepting.{accept_each, listening}
use icon.Ssl.{connect, protocol, open_at, new_server}
use icon.Ssl.Connecting.{
  Event, connect-handshake, accept_each-handshakes, protocols, connected, last_made, empty_accepted,
}

abbrev used : Socket ℕ
used = record {
  socket = some 3;
  endpoint = record { ip = b'1' ∷ []; port = 80 };
  buffer = 1 ∷ 2 ∷ [];
  received_messages = [];
  fetch_request_size = 1;
}

abbrev peer : Endpoint
peer = record { ip = b':' ∷ b':' ∷ b'1' ∷ []; port = 5000 }

-- The second handshake fails.
abbrev arrivals : List (Event ℕ)
arrivals =
    (11, false, peer) ∷ (12, true, record { ip = b'8' ∷ []; port = 5001 }) ∷ (13, false, peer) ∷ []

abbrev acceptor : ℕ
acceptor = 1

abbrev context : ℕ
context = 2

abbrev first : ℕ
first = 10

connect-handshake_example : connect used first false true peer ≡ (new_socket, none, false)
connect-handshake_example = connect-handshake used first false true peer

accept_each-handshakes_example :
    (do
      (s, begun) ←
          start_listening
            (protocol (some context) first false no_endpoint)
            (open_at acceptor context new_server).base
      accept_each (protocols context) s arrivals)
    ≡ done
        (listening acceptor (connected first arrivals) (empty_accepted (last_made first arrivals)))
accept_each-handshakes_example = accept_each-handshakes context acceptor first arrivals
