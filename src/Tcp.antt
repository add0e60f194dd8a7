-- ===== src/Tcp.antt =====
-- src/TCP.hpp and src/TCP.cpp. `T` stands for Boost's TCP socket and `A` for its acceptor. The members
-- that only call the base class are those of `Asio.Socket` and `Asio.Server`.
pub mod Connecting
pub mod Members
mod Examples
use icon.Prelude.{ℕ, Bool, true, false, Option, none, some, if◌then◌else◌}
use icon.Endpoint.{Endpoint}
use icon.Asio.Socket.{Socket, Request, finalize_connecting, new_socket}
use icon.Asio.Socket as Base
use icon.Asio.Server.{Server, Protocol}
use icon.Asio.Server as ServerBase

module _ {T : Type 0} where
  -- `Close`: the Boost socket is closed, and the base class frees it.
  unfoldable pub close : Socket T → Socket T
  close s = Base.close s

  -- `Connect`: Boost makes the socket `fresh`, its `connect` reports `err`, and the remote endpoint is
  -- then `remote`.
  unfoldable pub connect : Socket T → T → Bool → Endpoint → Socket T × Option Request × Bool
  unfolding close
  connect s fresh err remote =
      let made = record (close s) { socket = some fresh } in
      let (s', r, _) = finalize_connecting made remote in
      if err then (record made { socket = none }, none, false) else (s', r, true)

  -- `CreateEmptySocket`
  unfoldable pub create_empty_socket : Socket T → T → Socket T
  unfolding close
  create_empty_socket s fresh = record (close s) { socket = some fresh }

-- A socket of the server, with the fetch that it has begun.
abbrev pub Accepted : Type 0 → Type 0
Accepted T = Socket T × Option Request

-- `Server`: `fresh` is the Boost socket that is made next, `remote` the peer of an accepted one.
unfoldable pub protocol : {A T : Type 0} → T → Endpoint → Protocol A (Accepted T)
unfolding create_empty_socket
protocol fresh remote = record {
  is_valid = ServerBase.valid;
  create_empty_accepting_socket = λ _. some (create_empty_socket new_socket fresh, none);
  accept = λ a. let (s', r, _) = finalize_connecting a.0 remote in ((s', r), true);
}
