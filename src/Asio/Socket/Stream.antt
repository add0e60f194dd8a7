-- ===== src/Asio/Socket/Stream.antt =====
-- What a connected socket can live through: fetches that complete with pieces of any size within its
-- requests, fetches that fail, and messages that `TryPopMessage` takes out.
use icon.Prelude.{
  ℕ, ◌+◌, ◌≤◌, ◌<◌, ◌≡◌, ◌⊎◌, true, false, Option, none, some, List, [], ◌∷◌, ◌++◌, length, take,
  drop,
}
use icon.Message.{Message, done, create_optimal_buffer}
use icon.Endpoint.{Endpoint}
use icon.Asio.Socket.{Socket, Request, valid, fetch_data, finalize_connecting, pop_message}

-- A completed `async_read_some` as Boost documents it: `chunk`, at least a byte and no more than was
-- asked for, stands at the place given, and nothing else of the socket is changed but what stands
-- behind the chunk in that place.
pub record Completes {T : Type 0} (s : Socket T) (r : Request) (chunk : List ℕ) (s' : Socket T)
    : Type 0 where
  pub same : s' ≡ record s { buffer = s'.buffer }
  pub size : length s'.buffer ≡ length s.buffer
  pub kept : take r.from s'.buffer ≡ take r.from s.buffer
  pub filled : take (length chunk) (drop r.from s'.buffer) ≡ chunk
  pub some_byte : 1 ≤ length chunk
  pub fits : length chunk ≤ r.bytes

-- The socket, its outstanding request, all bytes delivered and all messages popped so far.
pub record State (T : Type 0) : Type 0 where
  pub socket : Socket T
  pub request : Option Request
  pub delivered : List ℕ
  pub popped : List Message

abbrev pub opened : {T : Type 0} → T → Socket T
opened t = record {
  socket = some t;
  endpoint = record { ip = []; port = 0 };
  buffer = [];
  received_messages = [];
  fetch_request_size = 0;
}

abbrev pub start : {T : Type 0} → T → Endpoint → State T
start t remote =
    let (s, r, _) = finalize_connecting (opened t) remote in
    record { socket = s; request = r; delivered = []; popped = [] }

-- A connected socket that waits for the first byte of the first frame, with the request for it.
abbrev pub fetching : {T : Type 0} → T → Endpoint → Socket T × Option Request
fetching t remote = (
  record {
    socket = some t;
    endpoint = remote;
    buffer = 0 ∷ [];
    received_messages = [];
    fetch_request_size = 1;
  },
  some (record { from = 0; bytes = 1 }),
)

-- What can happen to a connected socket, in any order: a fetch completes, a fetch fails, a message is
-- popped.
pub data Run {T : Type 0} (t : T) (remote : Endpoint) : State T → Type 0 where
  connect : Run t remote (start t remote)
  receive :
      {a : State T} {r : Request} {s' : Socket T} {b : Socket T × Option Request} (chunk : List ℕ)
      → Run t remote a
      → a.request ≡ some r
      → Completes a.socket r chunk s'
      → fetch_data s' false (length chunk) ≡ done b
      → Run t remote (record {
        socket = b.0;
        request = b.1;
        delivered = a.delivered ++ chunk;
        popped = a.popped;
      })
  fail :
      {a : State T} {r : Request} {b : Socket T × Option Request} (n : ℕ)
      → Run t remote a
      → a.request ≡ some r
      → fetch_data a.socket true n ≡ done b
      → Run t remote
          (record { socket = b.0; request = b.1; delivered = a.delivered; popped = a.popped })
  pop :
      {a : State T} {m : Message} {s' : Socket T}
      → Run t remote a
      → pop_message a.socket ≡ (s', some m)
      → Run t remote (record {
        socket = s';
        request = a.request;
        delivered = a.delivered;
        popped = a.popped ++ (m ∷ []);
      })

-- The bytes that `Send(const Message&)` makes of the messages, one after the other.
unfoldable pub wire : List Message → List ℕ
wire [] = []
wire (m ∷ ms) = create_optimal_buffer m [] ++ wire ms

-- `rest` begins the next frame and does not end it.
abbrev pub Begins : List Message → List ℕ → Type 0
Begins [] rest = rest ≡ []
Begins (m ∷ ms) rest =
    (rest ≡ take (length rest) (create_optimal_buffer m []))
    × (length rest < length (create_optimal_buffer m []))

-- No more is asked for than the next frame still has.
abbrev pub Room : List Message → ℕ → Type 0
Room [] n = Unit
Room (m ∷ ms) n = n ≤ length (create_optimal_buffer m [])

-- The socket waits for `fetch_request_size` bytes behind `rest`.
pub record Reading {T : Type 0} (a : State T) (todo : List Message) (rest : List ℕ) : Type 0 where
  pub is_valid : valid a.socket ≡ true
  pub size : length a.socket.buffer ≡ length rest + a.socket.fetch_request_size
  pub held : take (length rest) a.socket.buffer ≡ rest
  pub asked : a.request ≡ some (record { from = length rest; bytes = a.socket.fetch_request_size })
  pub some_byte : 1 ≤ a.socket.fetch_request_size
  pub room : Room todo (length rest + a.socket.fetch_request_size)

-- The messages split into those received and those to come; `rest` is what has come of the next.
pub record InOrder {T : Type 0} (msgs : List Message) (a : State T) : Type 0 where
  pub got : List Message
  pub todo : List Message
  pub rest : List ℕ
  pub split : msgs ≡ got ++ todo
  pub queued : a.popped ++ a.socket.received_messages ≡ got
  pub all_bytes : a.delivered ≡ wire got ++ rest
  pub begins : Begins todo rest
  pub state : (a.request ≡ none) ⊎ Reading a todo rest
