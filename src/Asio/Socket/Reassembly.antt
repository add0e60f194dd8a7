-- ===== src/Asio/Socket/Reassembly.antt =====
-- The socket puts the stream of bytes back together into the messages that were sent.
use icon.Prelude.{
  ℕ, ◌+◌, ◌^◌, ◌≤◌, ◌<◌, ◌≡◌, inr, refl, ap, sym, subst, ◌∙◌, true, false, Option, some, List, [],
  ◌∷◌, ◌++◌, length, take, drop, All, arith, append_assoc, append-nil, length-append, take-all,
  take-add, append_cancel,
}
use icon.Message.{Message, done, create_optimal_buffer}
use icon.Message.RoundTrip.{IsMessage, frame, length-frame, create_optimal_buffer-frame}
use icon.Asio.Socket.{Socket, Request, valid, process_buffer, fetch_data}
use icon.Asio.Socket.Fetch.{frame_bound, asking, granted, granted_bounds, process-whole}
use icon.Asio.Socket.Pieces.{
  fetch_data-cut, next_bytes, asking-Reading, next_fetch, process-unfinished, next_fetch_fits,
}
use icon.Asio.Socket.Stream.{Completes, State, wire, Begins, Room, Reading, InOrder}
use native.Mathlib.Decide.{dec_lt}

abbrev pub after : {T : Type 0} → State T → List ℕ → Socket T × Option Request → State T
after a chunk b = record {
  socket = b.0;
  request = b.1;
  delivered = a.delivered ++ chunk;
  popped = a.popped;
}

pub wire-append : (xs ys : List Message) → wire (xs ++ ys) ≡ wire xs ++ wire ys
unfolding wire
wire-append [] ys = refl
wire-append (m ∷ ms) ys = rw (wire-append ms ys, append_assoc)

pub length-create : (m : Message) → IsMessage m → 1 ≤ length (create_optimal_buffer m [])
length-create m is =
    rw (create_optimal_buffer-frame m [] (omega (arith, is.fits))) (omega (arith, length-frame m))

pub Begins-nothing : (ms : List Message) → All IsMessage ms → Begins ms []
Begins-nothing [] h = refl
Begins-nothing (m ∷ ms) (is, h) = (refl, length-create m is)

pub Room-one : (ms : List Message) → All IsMessage ms → Room ms (0 + granted 1)
Room-one [] h = tt
Room-one (m ∷ ms) (is, h) = omega (arith, length-create m is)

-- One completed fetch, with the stream cut at the message `m` that it is part of.
module _ {T : Type 0} (got : List Message) (m : Message) (ms : List Message) (rest : List ℕ)
    (is : IsMessage m) (more : All IsMessage ms) (a : State T)
    (queued : a.popped ++ a.socket.received_messages ≡ got)
    (all_bytes : a.delivered ≡ wire got ++ rest) (reading : Reading a (m ∷ ms) rest)
    (chunk future : List ℕ)
    (stream : wire (got ++ (m ∷ ms)) ≡ (a.delivered ++ chunk) ++ future) where
  abbrev msgs : List Message
  msgs = got ++ (m ∷ ms)

  regrouped : wire got ++ ((rest ++ chunk) ++ future) ≡ (a.delivered ++ chunk) ++ future
  regrouped = rw all_bytes (simp append_assoc)

  coming : (rest ++ chunk) ++ future ≡ create_optimal_buffer m [] ++ wire ms
  unfolding wire
  coming = append_cancel (wire got) (regrouped ∙ sym stream ∙ wire-append got (m ∷ ms))

  module _ {r : Request} {s' : Socket T} (req : a.request ≡ some r)
      (done_read : Completes a.socket r chunk s') where
    same_request : r ≡ record { from = length rest; bytes = a.socket.fetch_request_size }
    same_request = ground (arith, reading.asked)

    -- What is left of the buffer when the place for more bytes is cut off.
    s'' : Socket T
    s'' = record s' { buffer = rest ++ chunk; fetch_request_size = 0 }

    cut : take (length rest + length chunk) s'.buffer ≡ rest ++ chunk
    cut =
        let from : r.from ≡ length rest = ap Request.from same_request in
        let kept : take (length rest) s'.buffer ≡ rest =
          subst (λ n. take n s'.buffer ≡ take n a.socket.buffer) from done_read.kept
          ∙ reading.held in
        let filled : take (length chunk) (drop (length rest) s'.buffer) ≡ chunk =
          subst (λ n. take (length chunk) (drop n s'.buffer) ≡ chunk) from done_read.filled in
        rw (take-add s'.buffer (length rest) (length chunk), kept, filled)

    within : length (rest ++ chunk) ≤ length (create_optimal_buffer m [])
    within = omega (
      arith,
      length-append rest chunk,
      reading.room,
      done_read.fits,
      ap Request.bytes same_request,
    )

    begun : rest ++ chunk ≡ take (length (rest ++ chunk)) (create_optimal_buffer m [])
    begun = next_bytes (rest ++ chunk) future (create_optimal_buffer m []) (wire ms) coming within

    still_valid : valid s'' ≡ true
    unfolding valid s''
    still_valid = rw (ap Socket.socket done_read.same) reading.is_valid

    made : create_optimal_buffer m [] ≡ frame m
    made = create_optimal_buffer-frame m [] (omega (arith, is.fits))

    same_queue : s'.received_messages ≡ a.socket.received_messages
    same_queue = ap Socket.received_messages done_read.same

    same_fetch : s'.fetch_request_size ≡ a.socket.fetch_request_size
    same_fetch = ap Socket.fetch_request_size done_read.same

    fetched : fetch_data s' false (length chunk) ≡ process_buffer s''
    unfolding s'' valid
    fetched =
        let bound : length (create_optimal_buffer m []) < 2 ^ 64 = rw made (frame_bound m is) in
        let asked = ap Request.bytes same_request in
        fetch_data-cut s' rest chunk (rw (ap Socket.socket done_read.same) reading.is_valid) cut
          (omega (arith, done_read.size, reading.size, same_fetch))
          (omega (arith, done_read.fits, same_fetch))
          (omega (arith, done_read.size, reading.size, reading.room))

    Received : Type 0
    Received =
        (b : Socket T × Option Request) × (fetch_data s' false (length chunk) ≡ done b)
        × InOrder msgs (after a chunk b)
        × (r' : Request) × (b.1 ≡ some r')

    unfinished : length (rest ++ chunk) < length (frame m) → Received
    unfolding Received s''
    unfinished part =
        let next : ℕ = next_fetch m ms is s'' still_valid refl begun in
        let k : ℕ = granted next in
        let some_held : 1 ≤ length (rest ++ chunk) =
          omega (arith, length-append rest chunk, done_read.some_byte) in
        (
          asking s'' k,
          fetched ∙ process-unfinished m ms is s'' still_valid refl begun some_held part,
          record {
            got = got;
            todo = m ∷ ms;
            rest = rest ++ chunk;
            split = refl;
            queued = rw same_queue queued;
            all_bytes = rw (all_bytes, append_assoc);
            begins = (begun, rw made part);
            state = inr (
                asking-Reading s'' k (m ∷ ms) (a.delivered ++ chunk) a.popped still_valid
                  (granted_bounds next).0
                  (rw made (next_fetch_fits m ms is s'' still_valid refl begun part)));
          },
          _,
          refl,
        )

    completed_bytes :
        rest ++ chunk ≡ create_optimal_buffer m []
        → a.delivered ++ chunk ≡ wire (got ++ (m ∷ [])) ++ []
    unfolding wire
    completed_bytes complete =
        simp (all_bytes, wire-append, append-nil, append_assoc) (ap (◌++◌ (wire got)) complete)

    finished : length (rest ++ chunk) ≡ length (frame m) → Received
    unfolding Received s'' valid
    finished whole =
        let complete : rest ++ chunk ≡ create_optimal_buffer m [] =
          begun
          ∙ take-all (create_optimal_buffer m []) (length (rest ++ chunk))
              (rw made (omega arith)) in
        let at : rest ++ chunk ≡ take (length (rest ++ chunk)) (frame m) = rw made at begun in
        let s₂ : Socket T = record s'' {
          received_messages = s'.received_messages ++ (m ∷ []);
          buffer = [];
        } in
        (
          asking s₂ (granted 1),
          fetched ∙ process-whole m is s'' (length (rest ++ chunk)) still_valid at refl whole,
          record {
            got = got ++ (m ∷ []);
            todo = ms;
            rest = [];
            split = sym (append_assoc got (m ∷ []) ms);
            queued = rw same_queue (
                sym (append_assoc a.popped a.socket.received_messages (m ∷ []))
                ∙ ap (λ l. l ++ (m ∷ [])) queued);
            all_bytes = completed_bytes complete;
            begins = Begins-nothing ms more;
            state = inr (
                asking-Reading s₂ (granted 1) ms (a.delivered ++ chunk) a.popped still_valid
                  (granted_bounds 1).0 (Room-one ms more));
          },
          _,
          refl,
        )

    received : Received
    unfolding Received
    received = elim (dec_lt (length (rest ++ chunk)) (length (frame m))) [
      | yes part ↦ unfinished part
      | no whole ↦ finished (omega (arith, within, ap length made))
    ]

pub All-right : (xs ys : List Message) → All IsMessage (xs ++ ys) → All IsMessage ys
All-right [] ys h = h
All-right (x ∷ xs) ys (h, hs) = All-right xs ys hs

no_more :
    (got : List Message) (rest chunk future delivered : List ℕ)
    → delivered ≡ wire got ++ rest
    → wire (got ++ []) ≡ (delivered ++ chunk) ++ future
    → 1 ≤ length chunk
    → ⊥
no_more got rest chunk future delivered all_bytes stream some_byte =
    let total = ap length (ap wire (sym (append-nil got)) ∙ stream) in
    omega (
      arith,
      total,
      ap length all_bytes,
      length-append (wire got) rest,
      length-append (delivered ++ chunk) future,
      length-append delivered chunk,
    )

-- A completed fetch of bytes of the stream keeps the messages in order.
pub receive-InOrder :
    {T : Type 0} (got todo : List Message) (rest : List ℕ) (a : State T)
    → All IsMessage (got ++ todo)
    → a.popped ++ a.socket.received_messages ≡ got
    → a.delivered ≡ wire got ++ rest
    → Reading a todo rest
    → (chunk future : List ℕ) → wire (got ++ todo) ≡ (a.delivered ++ chunk) ++ future
    → {r : Request} {s' : Socket T} → a.request ≡ some r
    → Completes a.socket r chunk s'
    → (b : Socket T × Option Request) × (fetch_data s' false (length chunk) ≡ done b)
      × InOrder (got ++ todo) (after a chunk b)
      × (r' : Request) × (b.1 ≡ some r')
unfolding Received
receive-InOrder got [] rest a is queued all_bytes reading chunk future stream req ends =
    absurd (no_more got rest chunk future a.delivered all_bytes stream ends.some_byte)
receive-InOrder got (m ∷ ms) rest a is queued all_bytes reading chunk future stream req ends =
    let (is_m, more) = All-right got (m ∷ ms) is in
    received got m ms rest is_m more a queued all_bytes reading chunk future stream req ends
