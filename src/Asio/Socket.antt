-- ===== src/Asio/Socket.antt =====
-- `asio::Socket<T>` of src/Socket.hpp and src/Socket.cpp. `T*` is `Option T`. A call of
-- `async_read_some` is the request that an operation returns beside the new state; Boost calls
-- `FetchData` when it completes. `IoContextPollOne` is a transition of the environment.
pub mod Sending
pub mod Fetch
pub mod Stream
pub mod Pieces
pub mod Delivery
pub mod Transfer
pub mod Reassembly
mod Examples
use icon.Prelude.{
  ℕ, ◌+◌, ◌-◌, ◌*◌, ◌^◌, Bool, true, false, not, ◌&&◌, Option, none, some, List, [], ◌∷◌, ◌++◌,
  length, take, drop, replicate, ltb, leb, ◌==◌, if◌then◌else◌, min,
}
use icon.NumberBuffer.{number_buffer, u64, set_bytes}
use icon.Message.{
  Message, message, Outcome, done, undefined, ◌>>=◌, create_optimal_buffer,
  try_read_message_from_buffer,
}
use icon.Endpoint.{Endpoint, no_endpoint}

abbrev pub max_single_packet_size : ℕ
max_single_packet_size = 64 * 1024

pub record Socket (T : Type 0) : Type 0 where
  pub socket : Option T
  pub endpoint : Endpoint
  pub buffer : List ℕ
  pub received_messages : List Message
  pub fetch_request_size : ℕ

-- `async_read_some(buffer(&(buffer[from]), bytes))`, not completed yet.
pub record Request : Type 0 where
  pub from : ℕ
  pub bytes : ℕ

-- `std::vector::resize`
unfoldable pub resize : List ℕ → ℕ → List ℕ
resize buffer n = take n buffer ++ replicate (n - length buffer) 0

module _ {T : Type 0} where
  unfoldable pub valid : Socket T → Bool
  valid s = elim s.socket [ none ↦ false | some _ ↦ true ]

  -- Socket()
  unfoldable pub new_socket : Socket T
  unfolding no_endpoint
  new_socket = record {
    socket = none;
    endpoint = no_endpoint;
    buffer = [];
    received_messages = [];
    fetch_request_size = 0;
  }

  -- `Close`
  unfoldable pub close : Socket T → Socket T
  unfolding no_endpoint
  close s = record {
    socket = none;
    endpoint = no_endpoint;
    buffer = [];
    received_messages = [];
    fetch_request_size = 0;
  }

  unfoldable pub has_message : Socket T → Bool
  has_message s = elim s.received_messages [ [] ↦ false | _ ∷ _ ↦ true ]

  -- `GetBufferMessageCompletition`: `recvd` and `required`. `buffer.front()` has no meaning where the buffer is empty.
  unfoldable pub get_buffer_message_completition : Socket T → Outcome (ℕ × ℕ)
  get_buffer_message_completition s =
      let recvd = u64 (length s.buffer + 2 ^ 64 - s.fetch_request_size) in
      let (n, c) = set_bytes number_buffer (take recvd s.buffer) in
      let required = u64 (n.value + c) in
      if length s.buffer == 0
      then undefined
      else done
          (if c == 0 then (0, 0) else (if ltb required recvd then required else recvd, required))

  unfoldable pub get_message_completition : Socket T → Outcome (ℕ × ℕ)
  get_message_completition s = elim s.received_messages [
    | [] ↦ get_buffer_message_completition s
    | m ∷ _ ↦ let n = u64 (length m.title + 1 + length m.payload) in done (n, n)
  ]

  -- `RequestDataFetch`
  unfoldable pub request_data_fetch : Socket T → ℕ → Socket T × Option Request
  unfolding valid resize
  request_data_fetch s asked =
      let capped = if ltb max_single_packet_size asked then max_single_packet_size else asked in
      let bytes = if capped == 0 then 1 else capped in
      let current_size = length s.buffer in
      if valid s
      then (
        record s { buffer = resize s.buffer (current_size + bytes); fetch_request_size = bytes },
        some (record { from = current_size; bytes = bytes }),
      )
      else (s, none)

  -- The end of `FetchData` where a whole message is there.
  unfoldable pub take_message : Socket T → Outcome (Socket T)
  take_message s = do
    (found, readed) ← try_read_message_from_buffer message s.buffer
    done (
        if ltb 0 readed
        then record s {
          received_messages = s.received_messages ++ (found ∷ []);
          buffer = drop readed s.buffer;
        }
        else s)

  -- `FetchData` from the point where `fetchRequestSize` is 0.
  unfoldable pub process_buffer : Socket T → Outcome (Socket T × Option Request)
  process_buffer s = do
    (recvd, required) ← get_buffer_message_completition s
    if ltb 0 required && leb required recvd
        then (do s' ← take_message s; done (request_data_fetch s' 1))
        else done (
            if ltb 0 required && ltb recvd required
            then request_data_fetch s (required - recvd)
            else request_data_fetch s 1)

  -- `FetchData`
  unfoldable pub fetch_data : Socket T → Bool → ℕ → Outcome (Socket T × Option Request)
  unfolding valid resize
  fetch_data s err length' =
      let size = length s.buffer in
      let cut =
        if s.fetch_request_size == length'
        then s.buffer
        else resize s.buffer
            (u64 (size + 2 ^ 64 - u64 (s.fetch_request_size + 2 ^ 64 - length'))) in
      if err
      then done (s, none)
      else if valid s
      then process_buffer (record s { buffer = cut; fetch_request_size = 0 })
      else done (s, none)

  -- `FinalizeConnecting`, where `remote` is the remote endpoint of the Boost socket.
  unfoldable pub finalize_connecting : Socket T → Endpoint → Socket T × Option Request × Bool
  unfolding valid
  finalize_connecting s remote =
      let (s', r) = request_data_fetch (record s { endpoint = remote }) 1 in
      if valid s then (s', r, true) else (s, none, false)

  -- `TryPopMessage` once the wait is over: the message, or `false`.
  unfoldable pub pop_message : Socket T → Socket T × Option Message
  pop_message s = elim s.received_messages [
    | [] ↦ (s, none)
    | m ∷ ms ↦ (record s { received_messages = ms }, some m)
  ]

  -- `TryPopMessage`. A round is a reading of `clock()` and what `IoContextPollOne` does to the socket in
  -- it; the loop goes on while the time is not over, no message is there and the socket is valid. The
  -- list ends where the time is over.
  unfoldable pub wait_message : List (ℕ × (Socket T → Socket T)) → ℕ → Socket T → Socket T
  unfolding has_message valid
  wait_message [] end' s = s
  wait_message ((now, poll) ∷ rounds) end' s =
      let rest = wait_message rounds end' (poll s) in
      if ltb now end' && (not (has_message s) && valid s) then rest else s

  unfoldable pub try_pop_message :
      (Socket T → Socket T)
      → List (ℕ × (Socket T → Socket T))
      → ℕ
      → Socket T
      → Socket T × Option Message
  unfolding wait_message pop_message
  try_pop_message poll rounds end' s = pop_message (wait_message rounds end' (poll s))

-- `GetEndpoint` and `GetSocket`
unfoldable pub get_endpoint : {T : Type 0} → Socket T → Endpoint
get_endpoint s = s.endpoint

unfoldable pub get_socket : {T : Type 0} → Socket T → Option T
get_socket s = s.socket
