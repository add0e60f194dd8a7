-- ===== src/Asio/Socket/Fetch.antt =====
-- One completion of a fetch, on a buffer that holds the first `j` bytes of a frame.
use icon.Prelude.{
  ℕ, ◌+◌, ◌-◌, ◌^◌, ◌≤◌, ◌<◌, ◌≡◌, ap, ◌∙◌, true, false, Option, some, List, [], ◌∷◌, ◌++◌, length,
  take, replicate, ltb, ◌==◌, if◌then◌else◌, arith, take-all, length-take, append-nil, lt→ltb,
  le→ltb, le→leb, lt→leb, ne→==, drop-all,
}
use icon.NumberBuffer.{u64, IsU64}
use icon.NumberBuffer.Encode.{length-groups}
use icon.Message.{Message, message, done, try_read_message_from_buffer}
use icon.Message.RoundTrip.{
  IsMessage, body_size, header, frame, length-frame, try_read-frame, set_bytes-short,
  set_bytes-long,
}
use icon.Asio.Socket.{
  Socket, Request, resize, valid, get_buffer_message_completition, request_data_fetch, take_message,
  process_buffer, max_single_packet_size,
}

module _ (msg : Message) (is : IsMessage msg) where
  pub frame_bound : length (frame msg) < 2 ^ 64
  frame_bound = omega (arith, is.fits, length-frame msg, (length-groups 9 (body_size msg)).1)

  small : IsU64 (body_size msg)
  small = omega (arith, is.fits)

  module _ {T : Type 0} (s : Socket T) (j : ℕ) (at : s.buffer ≡ take j (frame msg))
      (idle : s.fetch_request_size ≡ 0) (within : j ≤ length (frame msg)) (begun : 1 ≤ j) where
    held : length s.buffer ≡ j
    held = rw at (length-take (frame msg) j within)

    all_received : u64 (length s.buffer + 2 ^ 64 - s.fetch_request_size) ≡ j
    all_received = omega (arith, held, frame_bound)

    whole_span : take j s.buffer ≡ take j (frame msg)
    whole_span = rw (take-all s.buffer j (omega (arith, held))) at

    some_held : (length s.buffer == 0) ≡ false
    some_held = ne→== (length s.buffer) 0 (omega (arith, held))

    completition_short : j < length (header msg) → get_buffer_message_completition s ≡ done (0, 0)
    unfolding get_buffer_message_completition
    completition_short short =
        rw (all_received, whole_span, set_bytes-short msg j small short, some_held)

    completition_long :
        length (header msg) ≤ j → get_buffer_message_completition s ≡ done (j, length (frame msg))
    unfolding get_buffer_message_completition
    completition_long long =
        let (value, count) = set_bytes-long msg j small long in
        let total : u64 (body_size msg + length (header msg)) ≡ length (frame msg) =
          omega (arith, frame_bound, length-frame msg) in
        let some_byte = (length-groups 9 (body_size msg)).0 in
        rw (
          some_held,
          all_received,
          whole_span,
          value,
          count,
          total,
          ne→== (length (header msg)) 0 (omega arith),
          le→ltb (length (frame msg)) j within,
        )

-- What `RequestDataFetch` asks for.
abbrev pub granted : ℕ → ℕ
granted n =
    let capped = if ltb max_single_packet_size n then max_single_packet_size else n in
    if capped == 0 then 1 else capped

pub granted_bounds :
    (n : ℕ) → (1 ≤ granted n) × (granted n ≤ max_single_packet_size) × (granted n ≤ n + 1)
granted_bounds n = ground arith

pub granted-le : (n : ℕ) → 1 ≤ n → granted n ≤ n
granted-le n h = ground arith

resize-append :
    (buffer : List ℕ) (k : ℕ) → resize buffer (length buffer + k) ≡ buffer ++ replicate k 0
unfolding resize
resize-append buffer k =
    let n : length buffer + k - length buffer ≡ k = omega arith in
    rw (take-all buffer (length buffer + k) (omega arith), n)

-- The state after a fetch of `k` bytes was asked for, with room for them at the end.
abbrev pub asking : {T : Type 0} → Socket T → ℕ → Socket T × Option Request
asking s k = (
  record s { buffer = s.buffer ++ replicate k 0; fetch_request_size = k },
  some (record { from = length s.buffer; bytes = k }),
)

pub request_data_fetch-asking :
    {T : Type 0} (s : Socket T) (n : ℕ)
    → valid s ≡ true
    → request_data_fetch s n ≡ asking s (granted n)
unfolding request_data_fetch
request_data_fetch-asking s n v = rw (v, resize-append s.buffer (granted n))

same_socket :
    {T : Type 0} (s : Socket T) (queue : List Message) (buffer : List ℕ)
    → valid s ≡ true
    → valid (record s { received_messages = queue; buffer = buffer }) ≡ true
unfolding valid
same_socket s queue buffer v = v

take_message-frame :
    {T : Type 0} (msg : Message) (is : IsMessage msg) (s : Socket T)
    → s.buffer ≡ frame msg
    → take_message s
      ≡ done (record s { received_messages = s.received_messages ++ (msg ∷ []); buffer = [] })
unfolding take_message
take_message-frame msg is s at =
    let read : try_read_message_from_buffer message (frame msg) ≡ done (msg, length (frame msg)) =
      rw append-nil at (try_read-frame message msg is []) in
    let some_byte = length-frame msg in
    rw (
      at,
      read,
      lt→ltb 0 (length (frame msg)) (omega (arith, (length-groups 9 (body_size msg)).0)),
      drop-all (frame msg),
    )

-- The three things that the rest of `FetchData` does with the first `j` bytes of a frame.
module _ {T : Type 0} (msg : Message) (is : IsMessage msg) (s : Socket T) (j : ℕ)
    (v : valid s ≡ true) (at : s.buffer ≡ take j (frame msg))
    (idle : s.fetch_request_size ≡ 0) where
  pub process-short :
      1 ≤ j → j < length (header msg) → process_buffer s ≡ done (asking s (granted 1))
  unfolding process_buffer
  process-short begun short =
      let within : j ≤ length (frame msg) = omega (arith, length-frame msg) in
      rw (completition_short msg is s j at idle within begun short, request_data_fetch-asking s 1 v)

  pub process-part :
      length (header msg) ≤ j
      → j < length (frame msg)
      → process_buffer s ≡ done (asking s (granted (length (frame msg) - j)))
  unfolding process_buffer
  process-part long part =
      let begun = (length-groups 9 (body_size msg)).0 in
      rw (
        completition_long msg is s j at idle (omega arith) (omega (arith, begun)) long,
        lt→ltb 0 (length (frame msg)) (omega arith),
        lt→leb (length (frame msg)) j part,
        lt→ltb j (length (frame msg)) part,
        request_data_fetch-asking s (length (frame msg) - j) v,
      )

  -- A whole frame leaves the buffer empty and its message at the end of the queue.
  pub process-whole :
      j ≡ length (frame msg)
      → process_buffer s
        ≡ done (
            asking
              (record s { received_messages = s.received_messages ++ (msg ∷ []); buffer = [] })
              (granted 1))
  unfolding process_buffer
  process-whole whole =
      let some_byte = length-frame msg in
      rw
        (
          completition_long msg is s j at idle (omega arith) (omega arith) (omega arith),
          lt→ltb 0 (length (frame msg)) (omega arith),
          le→leb (length (frame msg)) j (omega arith),
          take_message-frame msg is s (at ∙ take-all (frame msg) j (omega arith)),
        )
        (ap done
          (request_data_fetch-asking _ 1 (same_socket s (s.received_messages ++ (msg ∷ [])) [] v)))
