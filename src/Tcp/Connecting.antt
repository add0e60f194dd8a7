-- ===== src/Tcp/Connecting.antt =====
-- What a connected TCP socket starts from, and what the accept loop makes of the sockets it accepts.
use icon.Prelude.{◌≡◌, refl, ap, ap₂, ◌∙◌, Bool, if◌then◌else◌, false, true, none, List, [], ◌∷◌}
use icon.Message.{◌>>=◌, done}
use icon.Endpoint.{Endpoint, no_endpoint}
use icon.Asio.Socket.{Socket, valid, resize, request_data_fetch, finalize_connecting, new_socket}
use icon.Asio.Socket as Base
use icon.Asio.Socket.Stream.{fetching}
use icon.Asio.Server.{Protocol, start_listening, open_at, new_server}
use icon.Asio.Server as ServerBase
use icon.Asio.Server.Accepting.{
  Accepts, accept_each, greeted, waiting, listening, idle, start_listening-idle, accept_each-queue,
}
use icon.Tcp.{connect, close, create_empty_socket, Accepted, protocol}

-- Whatever the socket held before: if Boost's `connect` succeeds, `Connect` leaves it over the
-- new Boost socket with its peer, no message, a buffer of one byte and the fetch of that byte outstanding, and says
-- true; otherwise the
-- socket is as the constructor makes it, no fetch is outstanding, and `Connect` says false.
pub connect-start :
    {T : Type 0} (s : Socket T) (fresh : T) (err : Bool) (remote : Endpoint)
    → connect s fresh err remote ≡ (
        if err
        then (new_socket, none, false)
        else ((fetching fresh remote).0, (fetching fresh remote).1, true))
unfolding connect close Base.close finalize_connecting request_data_fetch valid resize no_endpoint
    new_socket
connect-start s fresh true remote = refl
connect-start s fresh false remote = refl

-- An accepted connection: the Boost socket that is made for the next one, and the peer.
abbrev pub Event : Type 0 → Type 0
Event T = T × Endpoint

abbrev pub empty_accepted : {T : Type 0} → T → Accepted T
empty_accepted t = (create_empty_socket new_socket t, none)

abbrev welcome : {T : Type 0} → Event T → Accepted T → Accepted T
welcome e x = let (s', r, _) = finalize_connecting x.0 e.1 in (s', r)

-- What is handed to the user where `t` is the Boost socket that waits for the first connection: for each
-- connection a socket over that Boost socket with the fetch of its first byte outstanding.
unfoldable pub connected : {T : Type 0} → T → List (Event T) → List (Accepted T)
connected t [] = []
connected t ((fresh, remote) ∷ es) = fetching t remote ∷ connected fresh es

unfoldable pub last_made : {T : Type 0} → T → List (Event T) → T
last_made t [] = t
last_made t ((fresh, remote) ∷ es) = last_made fresh es

module _ {T : Type 0} where
  greeted-connected :
      (t : T) (es : List (Event T))
      → greeted (λ e. empty_accepted e.0) welcome (empty_accepted t) es ≡ connected t es
  unfolding greeted connected create_empty_socket close Base.close no_endpoint finalize_connecting
      valid new_socket request_data_fetch resize
  greeted-connected t [] = refl
  greeted-connected t ((fresh, remote) ∷ es) =
      ap (λ xs. fetching t remote ∷ xs) (greeted-connected fresh es)

  waiting-last_made :
      (t : T) (es : List (Event T))
      → waiting (λ e. empty_accepted e.0) welcome (empty_accepted t) es
        ≡ empty_accepted (last_made t es)
  unfolding waiting last_made
  waiting-last_made t [] = refl
  waiting-last_made t ((fresh, remote) ∷ es) = waiting-last_made fresh es

module _ {A T : Type 0} where
  abbrev pub protocols : Event T → Protocol A (Accepted T)
  protocols e = protocol e.0 e.1

  protocol-Accepts : Accepts protocols (λ e. empty_accepted e.0) welcome
  unfolding protocol ServerBase.valid
  protocol-Accepts = record {
    when_open = λ e s a h. cc;
    makes = λ e s a h. refl;
    takes = λ e x. refl;
  }

  starts :
      (a : A) (t : T)
      → start_listening (protocol t no_endpoint) (open_at a new_server)
        ≡ done (listening a [] (empty_accepted t), true)
  unfolding open_at new_server idle ServerBase.close
  starts a t =
      start_listening-idle protocols (λ e. empty_accepted e.0) welcome protocol-Accepts a []
        (t, no_endpoint)

  -- A server that is opened and listens, and then accepts any number of connections without an error,
  -- holds one socket for each of them in the order in which they came. Each is over
  -- the Boost socket that waited for it, with its peer, no message, a buffer of one byte and the fetch of that byte
  -- outstanding. The server goes on listening, with an empty
  -- socket over the Boost socket made last.
  pub accept_each-connected :
      (a : A) (t : T) (es : List (Event T))
      → (do
        (s, begun) ← start_listening (protocol t no_endpoint) (open_at a new_server)
        accept_each protocols s es)
        ≡ done (listening a (connected t es) (empty_accepted (last_made t es)))
  accept_each-connected a t es =
      ap (λ o. o >>= (λ r. accept_each protocols r.0 es)) (starts a t)
      ∙ accept_each-queue protocols (λ e. empty_accepted e.0) welcome protocol-Accepts a []
          (empty_accepted t) es
      ∙ ap₂ (λ xs x. done (listening a xs x)) (greeted-connected t es) (waiting-last_made t es)
