-- ===== src/Udp/Delivery.antt =====
-- The messages that arrive in the datagrams of `FetchData`, sorted by who sent them.
use icon.Prelude.{
  ℕ, suc, ◌+◌, ◌^◌, ◌≤◌, ◌<◌, ◌≡◌, refl, sym, ap, ◌∙◌, Option, some, List, [], ◌∷◌, ◌++◌, length,
  arith, Option-cases, inl, inr, append-nil, append_assoc, All,
}
use icon.Message.{
  Message, message, done, ◌>>=◌, create_optimal_buffer, try_read_message_from_buffer,
}
use icon.Message.RoundTrip.{IsMessage}
use icon.Message.Framing.{try_read-create}
use icon.Endpoint.{AddressApi, of_boost, to_boost, is_set}
use icon.Udp.{Socket, id_of}
use icon.Udp.Ids.{IsWellFormed, with_id, id_of-known, id_of-new, find-with_id, with_id-IsWellFormed}
use icon.Udp.Fetch.{Peer, Datagram, datagram, get_id, receive, fetch_each}
use icon.Udp.Queues.{
  queue_of, enqueue, next-enqueue, enqueue-IsTrimmed, queue_of-with_id, enqueue-IsWellFormed,
  queue_of-enqueue,
}
use icon.Udp.Trimmed.{IsTrimmed}
use icon.Prelude.Map.{find}
use mathlib.Core.Logic.{ite}

module _ (api : AddressApi) where
  pub to_boost-of_boost : (p : Peer api) → to_boost api (of_boost api p) ≡ some p
  unfolding to_boost of_boost is_set
  to_boost-of_boost (a, port) = ground (arith, api.printed a, api.from_string-to_string a)

module _ (api : AddressApi) {T : Type 0} (peers : Discrete (Option (Peer api))) where
  pub get_id-of_boost :
      (fuel : ℕ) (s s' : Socket T (Peer api)) (p : Peer api) (id : ℕ)
      → id_of peers fuel s (some p) ≡ some (s', id)
      → get_id api peers fuel s (of_boost api p) ≡ some (s', id)
  unfolding get_id
  get_id-of_boost fuel s s' p id h = ground (arith, to_boost-of_boost api p)

  -- What a datagram with a whole message leaves, given the id of its sender.
  receive-message :
      (fuel : ℕ) (s s' : Socket T (Peer api)) (p : Peer api) (id : ℕ) (m : Message)
      → IsMessage m
      → id_of peers fuel s (some p) ≡ some (s', id)
      → receive api peers fuel s (datagram p (create_optimal_buffer m [])) ≡ done (enqueue s' id m)
  unfolding receive enqueue
  receive-message fuel s s' p id m is h =
      let frame = create_optimal_buffer m [] in
      let whole : try_read_message_from_buffer message frame ≡ done (m, length frame) =
        rw (append-nil frame) at (try_read-create m message [] [] is).1 in
      ground (arith, get_id-of_boost fuel s s' p id h)

  -- The socket after a datagram with `m` from `p`
  record IsReceived (fuel : ℕ) (s : Socket T (Peer api)) (p : Peer api) (m : Message)
      (s' : Socket T (Peer api)) : Type 0 where
    runs : receive api peers fuel s (datagram p (create_optimal_buffer m [])) ≡ done s'
    well_formed : IsWellFormed peers s'
    trimmed : IsTrimmed s'
    at_most_one : s'.next_empty_id ≤ s.next_empty_id + 1
    queued :
        (x : Option (Peer api))
        → queue_of peers s' x
          ≡ ite (peers (some p) x) (queue_of peers s x ++ (m ∷ [])) (queue_of peers s x)

  receive-IsReceived :
      (fuel : ℕ) (s : Socket T (Peer api)) (p : Peer api) (m : Message)
      → IsWellFormed peers s
      → IsTrimmed s
      → s.next_empty_id + 2 < 2 ^ 64
      → IsMessage m
      → (s' : Socket T (Peer api)) × IsReceived (suc fuel) s p m s'
  receive-IsReceived fuel s p m is trim room im =
      elim (Option-cases (find peers s.endpoint_id.t1t2 (some p))) [
        | inl h ↦
            let is' = with_id-IsWellFormed peers s is (some p) h in
            let s' = with_id peers s (some p) in
            let id = s.next_empty_id + 1 in
            let has : find peers s'.endpoint_id.t1t2 (some p) ≡ some id =
              grind (arith, find-with_id peers s is (some p) (some p)) in
            (
              enqueue s' id m,
              record {
                runs =
                    receive-message (suc fuel) s s' p id m im
                      (id_of-new peers fuel s (some p) is room h);
                well_formed = enqueue-IsWellFormed peers s' is' (some p) id has m;
                trimmed = enqueue-IsTrimmed s' id m trim;
                at_most_one = omega (arith, next-enqueue s' id m);
                queued = λ x.
                    rw (sym (queue_of-with_id peers s (some p) x is h))
                      (queue_of-enqueue peers s' is' (some p) id has m x);
              },
            )
        | inr (id, h) ↦ (
          enqueue s id m,
          record {
            runs =
                receive-message (suc fuel) s s p id m im
                  (id_of-known peers (suc fuel) s (some p) id h);
            well_formed = enqueue-IsWellFormed peers s is (some p) id h m;
            trimmed = enqueue-IsTrimmed s id m trim;
            at_most_one = omega (arith, next-enqueue s id m);
            queued = queue_of-enqueue peers s is (some p) id h m;
          },
        )
      ]

-- What the peers sent, in the order in which it arrives: each message with its sender.
abbrev pub Log : AddressApi → Type 0
Log api = List (Peer api × Message)

unfoldable pub datagrams_of : (api : AddressApi) → Log api → List (Datagram (Peer api))
datagrams_of api [] = []
datagrams_of api ((p, m) ∷ log) = datagram p (create_optimal_buffer m []) ∷ datagrams_of api log

-- The messages of one sender
unfoldable pub sent_by :
    (api : AddressApi) → Discrete (Option (Peer api)) → Option (Peer api) → Log api → List Message
sent_by api peers x [] = []
sent_by api peers x ((p, m) ∷ log) =
    let rest = sent_by api peers x log in ite (peers (some p) x) (m ∷ rest) rest

-- Where the socket keeps its ids well and no empty queue, `2^64` is not reached by the ids given out, and each datagram is
-- a whole message of some peer (of a size that does not wrap, its title without a zero byte), `FetchData`
-- ends, with one round of `PopNextEmptyId` for each datagram at most, the ids are kept well and no empty queue, and behind
-- what waited from each peer stand the messages of that peer and of no other, in order.
pub fetch_each-sorts :
    (api : AddressApi) {T : Type 0} (peers : Discrete (Option (Peer api))) (fuel : ℕ)
    (s : Socket T (Peer api)) (log : Log api)
    → IsWellFormed peers s
    → IsTrimmed s
    → s.next_empty_id + length log + 1 < 2 ^ 64
    → All (λ r. IsMessage r.1) log
    → (s' : Socket T (Peer api)) × (fetch_each api peers (suc fuel) s (datagrams_of api log)
        ≡ done s')
      × IsWellFormed peers s'
      × IsTrimmed s'
      × ((x : Option (Peer api))
          → queue_of peers s' x ≡ queue_of peers s x ++ sent_by api peers x log)
unfolding fetch_each datagrams_of sent_by
fetch_each-sorts api peers fuel s [] is trim room all =
    (s, refl, is, trim, λ x. sym (append-nil (queue_of peers s x)))
fetch_each-sorts api peers fuel s ((p, m) ∷ log) is trim room all =
    let (s₁, one) = receive-IsReceived api peers fuel s p m is trim (omega arith) all.0 in
    let (s', runs, is', trim', sorted) =
      fetch_each-sorts api peers fuel s₁ log one.well_formed one.trimmed
        (omega (arith, one.at_most_one)) all.1 in
    (
      s',
      ap (λ o. o >>= (λ r. fetch_each api peers (suc fuel) r (datagrams_of api log))) one.runs
          ∙ runs,
      is',
      trim',
      λ x. grind (
        arith,
        sorted x,
        one.queued x,
        append_assoc (queue_of peers s x) (m ∷ []) (sent_by api peers x log),
      ),
    )
