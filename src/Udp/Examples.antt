-- ===== src/Udp/Examples.antt =====
-- Concrete runs of src/UDP.cpp, over addresses of one byte.
use icon.Prelude.{ℕ, ◌≡◌, refl, true, Option, none, some, List, [], ◌∷◌, arith}
use native.Mathlib.Decide.{ℕ_discrete}
use mathlib.Core.Option as Options
use mathlib.Core.HLevel.{×_discrete}
use mathlib.Core.Logic.{ite}
use icon.Prelude.Map.{find}
use icon.Message.{Message}
use icon.Message.RoundTrip.{IsMessage}
use icon.Endpoint.{Endpoint, AddressApi, of_boost, to_boost, is_set}
use icon.Udp.{Socket}
use icon.Udp.Ids.{IsWellFormed}
use icon.Udp.Trimmed.{IsTrimmed}
use icon.Udp.Fetch.{Peer, get_id, get_endpoint}
use icon.Udp.Delivery.{Log}
use icon.Udp.Naming.{get_id-stable}
use icon.BiMap.Bijection.{without}
use icon.Udp.{queue, close_id}
use icon.Udp.Closing.{close_id-IsWellFormed}
use icon.Udp.Popping.{Pops, internal_pop_message-front}

abbrev pub byte_of : List ℕ → Option ℕ
byte_of [] = none
byte_of (a ∷ as') = some a

pub byte_printed : (a : ℕ) → is_set (record { ip = a ∷ []; port = 0 }) ≡ true
unfolding is_set
byte_printed a = refl

abbrev pub bytes_api : AddressApi
bytes_api = record {
  Address = ℕ;
  any_v4 = 0;
  address_to_string = λ a. a ∷ [];
  from_string = byte_of;
  from_string-to_string = λ a. refl;
  printed = byte_printed;
}

abbrev pub peers : Discrete (Option (Peer bytes_api))
peers = Options.discrete (×_discrete ℕ_discrete ℕ_discrete)

abbrev pub fresh : Socket ℕ (Peer bytes_api)
fresh = record {
  next_empty_id = 1;
  sock = some 3;
  received = [];
  endpoint_id = record { temp1 = none; temp2 = 9; t1t2 = []; t2t1 = [] };
}

pub fresh-IsWellFormed : IsWellFormed peers fresh
unfolding find
fresh-IsWellFormed = record {
  bijection = record { there = λ a b e. cc; back = λ a b e. cc };
  bounded = λ id e h. cc;
  queued = λ id q h. cc;
}

abbrev pub hi : Message
hi = record { title = 104 ∷ 105 ∷ []; payload = 1 ∷ 0 ∷ 3 ∷ [] }

abbrev pub bye : Message
bye = record { title = 98 ∷ []; payload = [] }

pub hi-IsMessage : IsMessage hi
hi-IsMessage = record { no_zero = omega arith; fits = omega arith }

pub bye-IsMessage : IsMessage bye
bye-IsMessage = record { no_zero = omega arith; fits = omega arith }

abbrev log : Log bytes_api
log = ((7, 80), hi) ∷ ((8, 80), hi) ∷ ((7, 80), bye) ∷ []

abbrev seven : Endpoint
seven = record { ip = 7 ∷ []; port = 80 }

reads_seven : to_boost bytes_api seven ≡ some (7, 80)
unfolding to_boost is_set
reads_seven = refl

get_id-stable_example :
    (s' : Socket ℕ (Peer bytes_api)) × (id : ℕ) × (get_id bytes_api peers 1 fresh seven
      ≡ some (s', id))
    × IsWellFormed peers s'
    × (get_id bytes_api peers 5 s' seven ≡ some (s', id))
    × (get_endpoint bytes_api peers s' id ≡ of_boost bytes_api (7, 80))
    × ((x : Option (Peer bytes_api))
        → find peers s'.endpoint_id.t1t2 x
          ≡ ite (peers (some (7, 80)) x) (some id) (find peers fresh.endpoint_id.t1t2 x))
get_id-stable_example =
    get_id-stable bytes_api peers 0 5 fresh seven (7, 80) fresh-IsWellFormed (omega arith)
      reads_seven

abbrev waiting : Socket ℕ (Peer bytes_api)
waiting = record fresh { received = (2, hi ∷ bye ∷ []) ∷ [] }

waiting-IsTrimmed : IsTrimmed waiting
waiting-IsTrimmed = (λ e. cc, tt)

internal_pop_message-front_example : Pops waiting 2
internal_pop_message-front_example = internal_pop_message-front waiting 2 waiting-IsTrimmed

close_id-IsWellFormed_example :
    IsWellFormed peers (close_id peers fresh 2)
    × IsTrimmed (close_id peers fresh 2)
    × ((x : Option (Peer bytes_api))
        → find peers (close_id peers fresh 2).endpoint_id.t1t2 x
          ≡ without ℕ_discrete 2 (find peers fresh.endpoint_id.t1t2 x))
    × ((j : ℕ) → queue (close_id peers fresh 2) j ≡ ite (ℕ_discrete 2 j) [] (queue fresh j))
close_id-IsWellFormed_example = close_id-IsWellFormed peers fresh 2 fresh-IsWellFormed tt
