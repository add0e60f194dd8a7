-- ===== src/Ssl.antt =====
-- src/SSL.hpp and src/SSL.cpp. `T` stands for Boost's SSL stream, `A` for its acceptor and `C` for its
-- context. The members that only call the base class are those of `Asio.Socket` and `Asio.Server`.
pub mod Connecting
pub mod Members
mod Examples
use icon.Prelude.{Bool, true, false, ◌&&◌, Option, none, some, if◌then◌else◌}
use icon.Endpoint.{Endpoint}
use icon.Asio.Socket.{Socket, Request, finalize_connecting, new_socket, close, valid}
use icon.Asio.Server.{Protocol}
use icon.Asio.Server as ServerBase

module _ {T : Type 0} where
  -- `Connect`: the stream `fresh` is made, the connection reports `refused`, the handshake reports
  -- `failed`, and the remote endpoint is then `remote`.
  unfoldable pub connect : Socket T → T → Bool → Bool → Endpoint → Socket T × Option Request × Bool
  connect s fresh refused failed remote =
      let made = record (close s) { socket = some fresh } in
      let (s', r, _) = finalize_connecting made remote in
      if refused
      then (record made { socket = none }, none, false)
      else if failed
      then (record made { socket = none }, none, false)
      else (s', r, true)

  -- `CreateEmptySocket`
  unfoldable pub create_empty_socket : Socket T → T → Socket T
  create_empty_socket s fresh = record (close s) { socket = some fresh }

  -- `StartServerSide`, where the handshake reports `failed`.
  unfoldable pub start_server_side : Socket T → Bool → Socket T × Bool
  start_server_side s failed =
      if valid s then (if failed then (close s, false) else (s, true)) else (s, false)

-- A socket of the server, with the fetch that it has begun.
abbrev pub Accepted : Type 0 → Type 0
Accepted T = Socket T × Option Request

pub record Server (A T C : Type 0) : Type 0 where
  pub base : ServerBase.Server A (Accepted T)
  pub ssl_context : Option C

-- Server()
unfoldable pub new_server : {A T C : Type 0} → Server A T C
new_server = record { base = ServerBase.new_server; ssl_context = none }

-- `Open`, with the acceptor and the context that Boost makes.
unfoldable pub open_at : {A T C : Type 0} → A → C → Server A T C → Server A T C
open_at acceptor context s = record {
  base = ServerBase.open_at acceptor s.base;
  ssl_context = some context;
}

-- `Close`
unfoldable pub close_server : {A T C : Type 0} → Server A T C → Server A T C
close_server s = record { base = ServerBase.close s.base; ssl_context = none }

-- `Valid`
unfoldable pub valid_server : {A T C : Type 0} → Server A T C → Bool
valid_server s = ServerBase.valid s.base && elim s.ssl_context [ none ↦ false | some _ ↦ true ]

-- `Accept` of a socket that is not null
unfoldable pub accept : {T : Type 0} → Bool → Endpoint → Accepted T → Accepted T × Bool
accept failed remote a =
    let (s', _) = start_server_side a.0 failed in
    let (s'', r, _) = finalize_connecting s' remote in ((s'', r), true)

-- The virtual functions of a server with the context `context`, where `fresh` is the stream that is made
-- next, `failed` what the handshake of an accepted socket reports, and `remote` its peer.
unfoldable pub protocol :
    {A T C : Type 0} → Option C → T → Bool → Endpoint → Protocol A (Accepted T)
unfolding valid_server accept create_empty_socket
protocol {A} {T} {C} context fresh failed remote = record {
  is_valid =
      λ b. (let s : Server A T C = record { base = b; ssl_context = context } in valid_server s);
  create_empty_accepting_socket = λ b.
      (let s : Server A T C = record { base = b; ssl_context = context } in
        if valid_server s then some (create_empty_socket new_socket fresh, none) else none);
  accept = accept failed remote;
}
