-- ===== src/Asio/Socket/Delivery.antt =====
-- What holds after any run of a connected socket.
use icon.Prelude.{
  ℕ, ◌≡◌, inl, inr, refl, ap, sym, subst, ◌∙◌, true, false, Option, none, some, List, [], ◌∷◌, ◌++◌,
  length, All, arith, append_assoc, append-nil, length-append, append_cancel, List-cases,
}
use icon.Message.{Message, done, create_optimal_buffer}
use icon.Message.RoundTrip.{IsMessage}
use icon.Endpoint.{Endpoint}
use icon.Asio.Socket.{
  Socket, Request, valid, resize, request_data_fetch, fetch_data, finalize_connecting, pop_message,
}
use icon.Asio.Socket.Pieces.{asking-Reading}
use icon.Asio.Socket.Reassembly.{
  after, receive-InOrder, Begins-nothing, Room-one, wire-append, All-right,
}
use icon.Asio.Socket.Stream.{
  Completes, State, opened, start, Run, connect, receive, fail, pop, wire, Begins, Reading, InOrder,
}

start-InOrder :
    {T : Type 0} (t : T) (remote : Endpoint) (msgs : List Message)
    → All IsMessage msgs
    → InOrder msgs (start t remote)
unfolding finalize_connecting request_data_fetch valid resize wire
start-InOrder t remote msgs is = record {
  got = [];
  todo = msgs;
  rest = [];
  split = refl;
  queued = refl;
  all_bytes = refl;
  begins = Begins-nothing msgs is;
  state = inr (
      asking-Reading (record (opened t) { endpoint = remote }) 1 msgs [] [] refl (omega arith)
        (Room-one msgs is));
}

pop_message-cases :
    {T : Type 0} (s : Socket T) {s' : Socket T} {m : Message}
    → pop_message s ≡ (s', some m)
    → (ms : List Message) × (s.received_messages ≡ m ∷ ms)
      × (s' ≡ record s { received_messages = ms })
unfolding pop_message
pop_message-cases s e = elim (List-cases s.received_messages) [
  | inl none_left ↦ absurd (ground arith)
  | inr (m', ms, q) ↦ (ms, ground arith, ground arith)
]

failed :
    {T : Type 0} (s : Socket T) (n : ℕ) {b : Socket T × Option Request}
    → fetch_data s true n ≡ done b
    → b ≡ (s, none)
unfolding fetch_data
failed s n e = cc

-- A failed fetch and a popped message leave the order alone.
fail-InOrder :
    {T : Type 0} (msgs : List Message) (a : State T)
    → InOrder msgs a
    → InOrder msgs (record a { request = none })
fail-InOrder msgs a o = record {
  got = got;
  todo = todo;
  rest = rest;
  split = split;
  queued = queued;
  all_bytes = all_bytes;
  begins = begins;
  state = inl refl;
}
  where
    open o use {got, todo, rest, split, queued, all_bytes, begins}

pop-Reading :
    {T : Type 0} (a : State T) (todo : List Message) (rest : List ℕ) (ms popped : List Message)
    → Reading a todo rest
    → Reading
        (record a { socket = record (a.socket) { received_messages = ms }; popped = popped })
        todo
        rest
unfolding valid
pop-Reading a todo rest ms popped reading = record {
  is_valid = reading.is_valid;
  size = reading.size;
  held = reading.held;
  asked = reading.asked;
  some_byte = reading.some_byte;
  room = reading.room;
}

pop-InOrder :
    {T : Type 0} (msgs : List Message) (a : State T) (m : Message) (ms : List Message)
    → a.socket.received_messages ≡ m ∷ ms
    → InOrder msgs a
    → InOrder msgs (record a {
      socket = record (a.socket) { received_messages = ms };
      popped = a.popped ++ (m ∷ []);
    })
pop-InOrder msgs a m ms q o = record {
  got = got;
  todo = todo;
  rest = rest;
  split = split;
  queued = append_assoc a.popped (m ∷ []) ms ∙ rw q at queued;
  all_bytes = all_bytes;
  begins = begins;
  state = elim state [
    | inl idle ↦ inl idle
    | inr reading ↦ inr (pop-Reading a todo rest ms (a.popped ++ (m ∷ [])) reading)
  ];
}
  where
    open o use {got, todo, rest, split, queued, all_bytes, begins, state}

module _ {T : Type 0} (msgs : List Message) (is : All IsMessage msgs) where
  -- An InOrder state with a request outstanding takes the next bytes of the stream.
  receives :
      {a : State T} {r : Request} {s' : Socket T} (chunk future : List ℕ)
      → InOrder msgs a
      → wire msgs ≡ (a.delivered ++ chunk) ++ future
      → a.request ≡ some r
      → Completes a.socket r chunk s'
      → (b : Socket T × Option Request) × (fetch_data s' false (length chunk) ≡ done b)
        × InOrder msgs (after a chunk b)
        × (r' : Request) × (b.1 ≡ some r')
  receives {a} chunk future o stream req ends = elim o.state [
    | inl idle ↦ cc
    | inr reading ↦
        let (b, e, o', r', next) =
          receive-InOrder o.got o.todo o.rest a (subst (All IsMessage) o.split is) o.queued
            o.all_bytes reading chunk future (rw (sym o.split) stream) req ends in
        (b, e, subst (λ l. InOrder l (after a chunk b)) (sym o.split) o', r', next)
  ]

  ordered :
      {t : T} {remote : Endpoint} {a : State T}
      → Run t remote a
      → (future : List ℕ) → wire msgs ≡ a.delivered ++ future
      → InOrder msgs a
  ordered {t} {remote} connect future stream = start-InOrder t remote msgs is
  ordered (receive {a} chunk run req ends e) future stream =
      let o = ordered run (chunk ++ future) (stream ∙ append_assoc a.delivered chunk future) in
      let (b, e', o', r', next) = receives chunk future o stream req ends in
      subst (λ x. InOrder msgs (after a chunk x)) (cc) o'
  ordered (fail {a} n run req e) future stream =
      let o = ordered run future stream in
      subst
        (λ x.
          InOrder msgs
            (record { socket = x.0; request = x.1; delivered = a.delivered; popped = a.popped }))
        (sym (failed a.socket n e)) (fail-InOrder msgs a o)
  ordered (pop {a} {m} run e) future stream =
      let o = ordered run future stream in
      let (ms, q, next) = pop_message-cases a.socket e in
      subst
        (λ x. InOrder msgs (record {
          socket = x;
          request = a.request;
          delivered = a.delivered;
          popped = a.popped ++ (m ∷ []);
        }))
        (sym next) (pop-InOrder msgs a m ms q o)

-- Nothing of the stream is left when all of it has come.
nothing_left :
    (todo : List Message) (rest : List ℕ)
    → All IsMessage todo
    → Begins todo rest
    → wire todo ≡ rest
    → todo ≡ []
unfolding wire
nothing_left [] rest h begins e = refl
nothing_left (m ∷ ms) rest h begins e =
    absurd
      (omega (arith, ap length e, length-append (create_optimal_buffer m []) (wire ms), begins.1))

-- Take messages whose titles have no zero byte and whose sizes do not wrap, and a socket just
-- connected. Whatever pieces of their frames, one frame after the other, its fetches bring, and
-- whenever a fetch fails or a message is popped: the messages popped and then those in the queue are
-- the first of the messages, in order, each once; the bytes delivered are their frames and a proper
-- part of the next; and no fetch asks for more than is left of that frame.
pub Run-InOrder :
    {T : Type 0} {t : T} {remote : Endpoint} {a : State T} (msgs : List Message) (future : List ℕ)
    → All IsMessage msgs
    → Run t remote a
    → wire msgs ≡ a.delivered ++ future
    → InOrder msgs a
Run-InOrder msgs future is run stream = ordered msgs is run future stream

-- In such a run, when all frames have been delivered, the messages popped and those in the queue are
-- all the messages that were sent.
pub Run-complete :
    {T : Type 0} {t : T} {remote : Endpoint} {a : State T} (msgs : List Message)
    → All IsMessage msgs
    → Run t remote a
    → wire msgs ≡ a.delivered
    → a.popped ++ a.socket.received_messages ≡ msgs
Run-complete {a} msgs is run stream =
    let o = ordered msgs is run [] (stream ∙ sym (append-nil a.delivered)) in
    let left : wire o.todo ≡ o.rest =
      append_cancel (wire o.got)
        (sym (wire-append o.got o.todo) ∙ ap wire (sym o.split) ∙ stream ∙ o.all_bytes) in
    let nothing : o.todo ≡ [] =
      nothing_left o.todo o.rest (All-right o.got o.todo (subst (All IsMessage) o.split is))
        o.begins left in
    o.queued ∙ sym (o.split ∙ rw nothing (append-nil o.got))

-- In such a run, with a fetch outstanding, the completion of that fetch by the next bytes of the frames
-- has a meaning: no read past the buffer happens, the socket stays connected, and a new fetch is
-- outstanding.
pub Run-receives :
    {T : Type 0} {t : T} {remote : Endpoint} {a : State T} {r : Request} {s' : Socket T}
    (msgs : List Message) (chunk future : List ℕ)
    → All IsMessage msgs
    → Run t remote a
    → wire msgs ≡ (a.delivered ++ chunk) ++ future
    → a.request ≡ some r
    → Completes a.socket r chunk s'
    → (b : Socket T × Option Request) × (fetch_data s' false (length chunk) ≡ done b)
      × (valid b.0 ≡ true)
      × (r' : Request) × (b.1 ≡ some r')
Run-receives {a} msgs chunk future is run stream req ends =
    let o =
      ordered msgs is run (chunk ++ future) (stream ∙ append_assoc a.delivered chunk future) in
    let (b, e, o', r', next) = receives msgs is chunk future o stream req ends in
    (b, e, elim o'.state [ inl idle ↦ cc | inr reading ↦ reading.is_valid ], r', next)
