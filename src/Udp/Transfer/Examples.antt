-- ===== src/Udp/Transfer/Examples.antt =====
-- Messages of two peers, of which one is brought twice and one is too large, between sockets of src/UDP.cpp.
use icon.Prelude.{ℕ, ◌≡◌, false, Option, List, [], ◌∷◌, ◌++◌, replicate, length-replicate, arith}
use icon.Message.{Message, done}
use icon.Message.RoundTrip.{IsMessage}
use icon.Udp.{Socket}
use icon.Udp.Ids.{IsWellFormed}
use icon.Udp.Trimmed.{IsTrimmed}
use icon.Udp.Fetch.{Peer, fetch_data}
use icon.Udp.Queues.{queue_of}
use icon.Udp.Delivery.{sent_by}
use icon.Udp.Examples.{
  bytes_api, peers, fresh, fresh-IsWellFormed, hi, hi-IsMessage, bye, bye-IsMessage,
}
use icon.Udp.Transfer.{Sending, arrivals, went, fetch_data-arrivals}

abbrev large : Message
large = record { title = 65 ∷ []; payload = replicate 1300 0 }

abbrev by : ℕ → Message → Sending bytes_api ℕ
by a msg = record { socket = fresh; from = (a, 80); msg = msg; err = false }

abbrev calls : List (Sending bytes_api ℕ)
calls = by 7 hi ∷ by 8 bye ∷ by 7 large ∷ by 7 hi ∷ []

large-IsMessage : IsMessage large
large-IsMessage = record {
  no_zero = omega arith;
  fits = omega (arith, length-replicate {A = ℕ} 1300 0);
}

fetch_data-arrivals_example :
    (s' : Socket ℕ (Peer bytes_api)) × (fetch_data bytes_api peers 1 fresh
        (arrivals bytes_api peers (9, 80) calls)
      ≡ done s')
    × IsWellFormed peers s'
    × IsTrimmed s'
    × ((x : Option (Peer bytes_api))
        → queue_of peers s' x
          ≡ queue_of peers fresh x ++ sent_by bytes_api peers x (went bytes_api calls))
fetch_data-arrivals_example =
    fetch_data-arrivals bytes_api peers (9, 80) 0 fresh calls (λ z. cc) fresh-IsWellFormed tt
      (omega arith) (hi-IsMessage, (bye-IsMessage, (large-IsMessage, (hi-IsMessage, tt))))
