-- ===== src/Tcp/Examples.antt =====
-- Concrete runs of src/TCP.cpp. A Boost socket and an acceptor are numbers.
use icon.Prelude.{ℕ, ◌≡◌, true, false, some, List, [], ◌∷◌}
use icon.Message.{◌>>=◌, done}
use icon.Endpoint.{Endpoint, no_endpoint}
use icon.Asio.Socket.{Socket}
use icon.Asio.Socket.Stream.{fetching}
use icon.Asio.Server.{start_listening, open_at, new_server}
use icon.Asio.Server.Accepting.{accept_each, listening}
use icon.Tcp.{connect, protocol}
use icon.Tcp.Connecting.{
  Event, connect-start, accept_each-connected, protocols, connected, last_made, empty_accepted,
}

abbrev used : Socket ℕ
used = record {
  socket = some 3;
  endpoint = record { ip = b'1' ∷ []; port = 80 };
  buffer = 1 ∷ 2 ∷ [];
  received_messages = [];
  fetch_request_size = 1;
}

abbrev peer : Endpoint
peer = record { ip = b':' ∷ b':' ∷ b'1' ∷ []; port = 5000 }

abbrev arrivals : List (Event ℕ)
arrivals = (11, peer) ∷ (12, record { ip = b'8' ∷ []; port = 5001 }) ∷ []

-- Boost's acceptor and the first of its sockets.
abbrev acceptor : ℕ
acceptor = 1

abbrev first : ℕ
first = 10

connect-start_example :
    connect used first false peer ≡ ((fetching first peer).0, (fetching first peer).1, true)
connect-start_example = connect-start used first false peer

accept_each-connected_example :
    (do
      (s, begun) ← start_listening (protocol first no_endpoint) (open_at acceptor new_server)
      accept_each protocols s arrivals)
    ≡ done
        (listening acceptor (connected first arrivals) (empty_accepted (last_made first arrivals)))
accept_each-connected_example = accept_each-connected acceptor first arrivals
