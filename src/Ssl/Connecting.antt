-- ===== src/Ssl/Connecting.antt =====
-- What a connected SSL socket starts from, and what the accept loop makes of the sockets it accepts,
-- with and without a failing handshake.
use icon.Prelude.{
  ◌≡◌, refl, ap, ap₂, ◌∙◌, ◌||◌, Bool, false, true, none, some, List, [], ◌∷◌, if◌then◌else◌,
}
use icon.Message.{◌>>=◌, done}
use icon.Endpoint.{Endpoint, no_endpoint}
use icon.Asio.Socket.{
  Socket, valid, resize, request_data_fetch, finalize_connecting, new_socket, close,
}
use icon.Asio.Socket.Stream.{fetching}
use icon.Asio.Server.{Protocol, start_listening}
use icon.Asio.Server as ServerBase
use icon.Asio.Server.Accepting.{
  Accepts, accept_each, greeted, waiting, listening, idle, start_listening-idle, accept_each-queue,
}
use icon.Ssl.{
  connect, create_empty_socket, start_server_side, Accepted, open_at, new_server, valid_server,
  accept, protocol,
}

-- Whatever the socket held before: if the connection and the handshake both succeed, `Connect` leaves it
-- over the new stream with its peer, no message, a buffer of one byte and the fetch of that byte outstanding, and says
-- true;
-- if one of them fails, the socket is as the constructor makes it, no fetch is outstanding, and
-- `Connect` says false.
pub connect-handshake :
    {T : Type 0} (s : Socket T) (fresh : T) (refused failed : Bool) (remote : Endpoint)
    → connect s fresh refused failed remote ≡ (
        if refused || failed
        then (new_socket, none, false)
        else ((fetching fresh remote).0, (fetching fresh remote).1, true))
unfolding connect close finalize_connecting request_data_fetch valid resize no_endpoint new_socket
connect-handshake s fresh true failed remote = refl
connect-handshake s fresh false true remote = refl
connect-handshake s fresh false false remote = refl

-- An accepted connection: the stream that is made for the next one, whether the handshake fails, and the
-- peer.
abbrev pub Event : Type 0 → Type 0
Event T = T × Bool × Endpoint

abbrev pub empty_accepted : {T : Type 0} → T → Accepted T
empty_accepted t = (create_empty_socket new_socket t, none)

abbrev welcome : {T : Type 0} → Event T → Accepted T → Accepted T
welcome e x = (accept e.1 e.2 x).0

-- What is handed to the user where the stream `t` waits for the first connection: where the handshake
-- succeeds a socket over that stream with the fetch of its first byte outstanding, and where
-- it fails a closed socket.
unfoldable pub connected : {T : Type 0} → T → List (Event T) → List (Accepted T)
connected t [] = []
connected t ((fresh, failed, remote) ∷ es) =
    (if failed then (new_socket, none) else fetching t remote) ∷ connected fresh es

unfoldable pub last_made : {T : Type 0} → T → List (Event T) → T
last_made t [] = t
last_made t ((fresh, failed, remote) ∷ es) = last_made fresh es

module _ {T : Type 0} where
  greeted-connected :
      (t : T) (es : List (Event T))
      → greeted (λ e. empty_accepted e.0) welcome (empty_accepted t) es ≡ connected t es
  unfolding greeted connected create_empty_socket close no_endpoint accept start_server_side
      finalize_connecting valid new_socket request_data_fetch resize
  greeted-connected t [] = refl
  greeted-connected t ((fresh, true, remote) ∷ es) =
      ap (λ xs. (new_socket, none) ∷ xs) (greeted-connected fresh es)
  greeted-connected t ((fresh, false, remote) ∷ es) =
      ap (λ xs. fetching t remote ∷ xs) (greeted-connected fresh es)

  waiting-last_made :
      (t : T) (es : List (Event T))
      → waiting (λ e. empty_accepted e.0) welcome (empty_accepted t) es
        ≡ empty_accepted (last_made t es)
  unfolding waiting last_made
  waiting-last_made t [] = refl
  waiting-last_made t ((fresh, failed, remote) ∷ es) = waiting-last_made fresh es

module _ {A T C : Type 0} (context : C) where
  abbrev pub protocols : Event T → Protocol A (Accepted T)
  protocols e = protocol (some context) e.0 e.1 e.2

  protocol-Accepts : Accepts protocols (λ e. empty_accepted e.0) welcome
  unfolding protocol valid_server ServerBase.valid accept
  protocol-Accepts = record {
    when_open = λ e s a h. cc;
    makes = λ e s a h. cc;
    takes = λ e x. refl;
  }

  starts :
      (a : A) (t : T)
      → start_listening
          (protocol (some context) t false no_endpoint)
          (open_at a context new_server).base
        ≡ done (listening a [] (empty_accepted t), true)
  unfolding open_at new_server ServerBase.new_server idle ServerBase.close ServerBase.open_at
  starts a t =
      start_listening-idle protocols (λ e. empty_accepted e.0) welcome protocol-Accepts a []
        (t, false, no_endpoint)

  -- A server that is opened and listens, and then accepts any number of connections without an error of
  -- the accept itself, holds one socket for each of them in the order in which they came, also where
  -- the handshake fails: such a socket is closed, with no peer and no fetch. Each other socket is
  -- over the stream that waited for it, with its peer, no message, a buffer of one byte and the fetch of that byte
  -- outstanding. The server goes on listening.
  pub accept_each-handshakes :
      (a : A) (t : T) (es : List (Event T))
      → (do
        (s, begun) ←
            start_listening
              (protocol (some context) t false no_endpoint)
              (open_at a context new_server).base
        accept_each protocols s es)
        ≡ done (listening a (connected t es) (empty_accepted (last_made t es)))
  accept_each-handshakes a t es =
      ap (λ o. o >>= (λ r. accept_each protocols r.0 es)) (starts a t)
      ∙ accept_each-queue protocols (λ e. empty_accepted e.0) welcome protocol-Accepts a []
          (empty_accepted t) es
      ∙ ap₂ (λ xs x. done (listening a xs x)) (greeted-connected t es) (waiting-last_made t es)
