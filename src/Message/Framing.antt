-- ===== src/Message/Framing.antt =====
-- The three functions of the message frame against one another: on whole frames, on parts of one, and
-- on any bytes.
use icon.Prelude.{
  ℕ, ◌+◌, ◌≤◌, ◌<◌, ◌≡◌, true, false, List, ◌++◌, length, take, arith, ne→==, lt→leb, length-take,
  leb,
}
use icon.NumberBuffer.{IsU64, u64}
use icon.NumberBuffer.Encode.{length-groups}
use icon.Message.{
  Message, done, create_optimal_buffer, can_read_full_message, try_read_message_from_buffer,
}
use icon.Message.RoundTrip.{
  IsMessage, body_size, header, frame, length-frame, create_optimal_buffer-frame, try_read-frame,
  can_read-frame, set_bytes-short, set_bytes-long,
}
use native.Mathlib.Decide.{dec_lt}

-- A buffer that does not hold the whole frame yet.
module _ (old msg : Message) (is : IsMessage msg) (j : ℕ) (part : j < length (frame msg)) where
  small : IsU64 (body_size msg)
  small = omega (arith, is.fits)

  short-frame : length (take j (frame msg)) ≡ j
  short-frame = length-take (frame msg) j (omega arith)

  above : length (header msg) ≤ j → leb (u64 (body_size msg + length (header msg))) j ≡ false
  above long =
      lt→leb _ _ (omega (arith, is.fits, length-frame msg, (length-groups 9 (body_size msg)).1))

  pub try_read-part : try_read_message_from_buffer old (take j (frame msg)) ≡ done (old, 0)
  unfolding try_read_message_from_buffer
  try_read-part = elim (dec_lt j (length (header msg))) [
    | yes short ↦ rw (set_bytes-short msg j small short)
    | no long ↦
        let (value, count) = set_bytes-long msg j small (omega arith) in
        rw (
          count,
          value,
          short-frame,
          above (omega arith),
          ne→== (length (header msg)) 0 (omega (arith, (length-groups 9 (body_size msg)).0)),
        )
  ]

  pub can_read-part : can_read_full_message (take j (frame msg)) ≡ false
  unfolding can_read_full_message
  can_read-part = elim (dec_lt j (length (header msg))) [
    | yes short ↦ rw (set_bytes-short msg j small short)
    | no long ↦
        let (value, count) = set_bytes-long msg j small (omega arith) in
        rw (
          count,
          value,
          short-frame,
          above (omega arith),
          ne→== (length (header msg)) 0 (omega (arith, (length-groups 9 (body_size msg)).0)),
        )
  ]

-- For a message whose title has no zero byte and whose size does not wrap, what `CreateOptimalBuffer`
-- writes, whatever was in the vector before and whatever follows in the buffer, is found to be a full
-- message, and `TryReadMessageFromBuffer` gives the message and the number of bytes written.
pub try_read-create :
    (msg old : Message) (before rest : List ℕ)
    → IsMessage msg
    → (can_read_full_message (create_optimal_buffer msg before ++ rest) ≡ true)
      × (try_read_message_from_buffer old (create_optimal_buffer msg before ++ rest)
          ≡ done (msg, length (create_optimal_buffer msg before)))
try_read-create msg old before rest is =
    rw (create_optimal_buffer-frame msg before (omega (arith, is.fits)))
      (can_read-frame old msg is rest, try_read-frame old msg is rest)

-- On each proper prefix of what `CreateOptimalBuffer` writes for such a message no full message is
-- found, and `TryReadMessageFromBuffer` reports 0 and leaves the message alone.
pub try_read-create_prefix :
    (msg old : Message) (before : List ℕ) (j : ℕ)
    → IsMessage msg
    → j < length (create_optimal_buffer msg before)
    → (can_read_full_message (take j (create_optimal_buffer msg before)) ≡ false)
      × (try_read_message_from_buffer old (take j (create_optimal_buffer msg before))
          ≡ done (old, 0))
try_read-create_prefix msg old before j is h =
    let e = create_optimal_buffer-frame msg before (omega (arith, is.fits)) in
    let part = rw e at h in rw e (can_read-part old msg is j part, try_read-part old msg is j part)
