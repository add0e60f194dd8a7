-- ===== src/Ssl/Members.antt =====
-- The members of `ssl::Socket` and `ssl::Server` of src/SSL.cpp that only call those of the base classes.
use icon.Prelude.{ℕ, Bool, Option, List}
use icon.Message.{Message, Outcome}
use icon.Asio.Socket.{Socket}
use icon.Asio.Socket as SocketBase
use icon.Asio.Socket.Sending.{Write, Sent}
use icon.Asio.Socket.Sending as Sending
use icon.Asio.Server.{Protocol}
use icon.Asio.Server as ServerBase
use icon.Ssl.{Accepted, Server}

module _ {T : Type 0} where
  -- Socket()
  unfoldable pub socket : Socket T
  socket = SocketBase.new_socket

  -- ~Socket(), where the base class closes
  unfoldable pub end_socket : Socket T → Socket T
  end_socket s = SocketBase.close s

  unfoldable pub send : List (Write T) → Socket T → List ℕ → Sent T
  send ws s buffer = Sending.send ws s buffer

  unfoldable pub send_message : List (Write T) → Socket T → Message → Sent T
  send_message ws s msg = Sending.send_message ws s msg

  unfoldable pub try_pop_message :
      (Socket T → Socket T)
      → List (ℕ × (Socket T → Socket T))
      → ℕ
      → Socket T
      → Socket T × Option Message
  try_pop_message poll rounds end' s = SocketBase.try_pop_message poll rounds end' s

  unfoldable pub get_message_completition : Socket T → Outcome (ℕ × ℕ)
  get_message_completition s = SocketBase.get_message_completition s

  unfoldable pub get_socket : Socket T → Option T
  get_socket s = s.socket

  unfoldable pub has_message : Socket T → Bool
  has_message s = SocketBase.has_message s

-- The virtual functions are those of the server that the members are called on; its context stays as it is.
abbrev pub Base : Type 0 → Type 0 → Type 0
Base A T = ServerBase.Server A (Accepted T)

module _ {T : Type 0} where
  unfoldable pub close_socket : Socket T → Socket T
  close_socket s = SocketBase.close s

module _ {A T C : Type 0} where
  -- ~Server(), where the base class closes its own part and the context stays
  unfoldable pub end_server : Server A T C → Server A T C
  end_server s = record s { base = ServerBase.close s.base }

module _ {A T : Type 0} where
  module _ (p : Protocol A (Accepted T)) where
    unfoldable pub is_listening : Base A T → Bool
    is_listening s = ServerBase.is_listening p s

    unfoldable pub has_new_socket : (Base A T → Base A T) → Base A T → Base A T × Bool
    has_new_socket poll s = ServerBase.has_new_socket p poll s

    unfoldable pub try_get_new_socket :
        (Base A T → Base A T)
        → List (ℕ × (Base A T → Base A T))
        → ℕ
        → Base A T
        → Base A T × Option (Accepted T)
    try_get_new_socket poll rounds end' s = ServerBase.try_get_new_socket p poll rounds end' s

    unfoldable pub get_new_socket :
        List ((Base A T → Base A T) × List (ℕ × (Base A T → Base A T)) × ℕ)
        → Base A T
        → Base A T × Option (Accepted T)
    get_new_socket rounds s = ServerBase.get_new_socket p rounds s

    unfoldable pub start_listening : Base A T → Outcome (Base A T × Bool)
    start_listening s = ServerBase.start_listening p s
