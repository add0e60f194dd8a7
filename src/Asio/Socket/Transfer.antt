-- ===== src/Asio/Socket/Transfer.antt =====
-- `Send` of src/Socket.cpp at one end of a connection, and the fetches of a socket at the other: what comes out of
-- calls of `Send` one after the other, of which none is made after one that does not return true.
mod Examples
use icon.Prelude.{
  ℕ, ◌≡◌, ◌≢◌, refl, sym, ap, ◌∙◌, inl, inr, true, false, Bool, Option, none, some, List, [], ◌∷◌,
  ◌++◌, length, All, append_assoc, append-nil, Option-cases, List-cases, ◌⊎◌, arith,
}
use icon.Message.{Message, create_optimal_buffer}
use icon.Message.RoundTrip.{IsMessage}
use icon.Endpoint.{Endpoint}
use icon.Asio.Socket.{Socket}
use icon.Asio.Socket.Sending.{Write, Sent, send_message, Documented}
use icon.Asio.Socket.Sending.Wire.{Tells, send_message-Tells}
use icon.Asio.Socket.Stream.{State, Run, wire, InOrder}
use icon.Asio.Socket.Delivery.{Run-InOrder, Run-complete}

-- A call of `Send`, with what `write_some` does in its rounds
pub record Call (T : Type 0) : Type 0 where
  pub writes : List (Write T)
  pub msg : Message

module _ {T : Type 0} where
  abbrev pub messages : List (Call T) → List Message
  messages [] = []
  messages (c ∷ cs) = c.msg ∷ messages cs

  -- `answer` is `some true` where all calls returned true.
  abbrev pub followed_by : Sent T → Sent T → Sent T
  followed_by r rest = elim r.answer [
    | none ↦ r
    | some true ↦ record rest { wire = r.wire ++ rest.wire }
    | some false ↦ r
  ]

  unfoldable pub send_each : List (Call T) → Socket T → Sent T
  send_each [] s = record { socket = s; wire = []; answer = some true }
  send_each (c ∷ cs) s =
      let r = send_message c.writes s c.msg in
      let rest = send_each cs r.socket in followed_by r rest

  abbrev pub DocumentedEach : List (Call T) → Type 0
  DocumentedEach [] = Unit {0}
  DocumentedEach (c ∷ cs) =
      Documented c.writes (length (create_optimal_buffer c.msg [])) 0 × DocumentedEach cs

  stopped : (r rest : Sent T) → r.answer ≢ some true → followed_by r rest ≡ r
  stopped r rest no_end = elim (Option-cases r.answer) [
    | inl e ↦ rw e refl
    | inr (true, e) ↦ absurd (no_end e)
    | inr (false, e) ↦ rw e refl
  ]

  -- All frames went out, or a part from their front did and not all calls returned true.
  joined :
      (frame frames : List ℕ) (r rest : Sent T)
      → Tells frame r
      → Tells frames rest
      → Tells (frame ++ frames) (followed_by r rest)
  joined frame frames r rest (inl (says, all)) (inl (says', all')) =
      rw says (inl (says', ap (λ l. l ++ rest.wire) all ∙ ap (λ l. frame ++ l) all'))
  joined frame frames r rest (inl (says, all)) (inr (no_end, (more, part))) = rw says (
      inr (
        no_end,
        (
          more,
          append_assoc r.wire rest.wire more
              ∙ (ap (λ l. l ++ (rest.wire ++ more)) all ∙ ap (λ l. frame ++ l) part),
        ),
      ))
  joined frame frames r rest (inr (no_end, (more, part))) g = rw (stopped r rest no_end) (
      inr (
        no_end,
        (more ++ frames, sym (append_assoc r.wire more frames) ∙ ap (λ l. l ++ frames) part),
      ))

  send_each-Tells :
      (calls : List (Call T)) (s : Socket T)
      → DocumentedEach calls
      → Tells (wire (messages calls)) (send_each calls s)
  unfolding send_each wire
  send_each-Tells [] s h = inl (refl, refl)
  send_each-Tells (c ∷ cs) s (h, hs) =
      let r = send_message c.writes s c.msg in
      joined (create_optimal_buffer c.msg []) (wire (messages cs)) r (send_each cs r.socket)
        (send_message-Tells c.writes s c.msg h) (send_each-Tells cs r.socket hs)

  -- What `Send` of all calls made of the messages, however much of it has been written
  sent_part :
      (bytes : List ℕ) (r : Sent T) → Tells bytes r → (more : List ℕ) × (r.wire ++ more ≡ bytes)
  sent_part bytes r (inl (says, all)) = ([], append-nil r.wire ∙ all)
  sent_part bytes r (inr (no_end, part)) = part

-- Take messages whose titles have no zero byte and whose sizes do not wrap, sent by calls of `Send` one after the other
-- until one does not return true, where `write_some` takes no more than it is given; and a socket just connected, to
-- which the connection brings what was written, in order, and has brought all but `lost`. However its fetches cut it,
-- and whenever a fetch fails or a message is popped: the messages popped and then those in the queue are the first of
-- the messages sent, in order, each once; and none is still to come, or a call did not return true, or bytes are `lost`.
pub send_each-Run :
    {T U : Type 0} {t : U} {remote : Endpoint} {a : State U} (calls : List (Call T)) (s : Socket T)
    (lost : List ℕ)
    → All IsMessage (messages calls)
    → DocumentedEach calls
    → Run t remote a
    → (send_each calls s).wire ≡ a.delivered ++ lost
    → (todo : List Message) × ((a.popped ++ a.socket.received_messages) ++ todo ≡ messages calls)
      × ((todo ≡ []) ⊎ ((send_each calls s).answer ≢ some true) ⊎ (lost ≢ []))
send_each-Run {a} calls s lost is documented run brought =
    let told = send_each-Tells calls s documented in
    let (more, part) = sent_part (wire (messages calls)) (send_each calls s) told in
    let stream : wire (messages calls) ≡ a.delivered ++ (lost ++ more) =
      sym part ∙ (ap (λ l. l ++ more) brought ∙ append_assoc a.delivered lost more) in
    let o = Run-InOrder (messages calls) (lost ++ more) is run stream in
    let received = ap (λ l. l ++ o.todo) o.queued ∙ sym o.split in
    elim told [
      | inr (no_end, _) ↦ (o.todo, received, inr (inl no_end))
      | inl (says, all) ↦ elim (List-cases lost) [
        | inr (b, bs, e) ↦ (o.todo, received, inr (inr (λ z. cc)))
        | inl none_lost ↦
            let whole = Run-complete (messages calls) is run (
              sym all
              ∙ (brought ∙ (ap (λ l. a.delivered ++ l) none_lost ∙ append-nil a.delivered))) in
            ([], append-nil (a.popped ++ a.socket.received_messages) ∙ whole, inl refl)
      ]
    ]
