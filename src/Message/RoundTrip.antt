-- ===== src/Message/RoundTrip.antt =====
-- What `CreateOptimalBuffer` writes is what `TryReadMessageFromBuffer` reads.
use icon.Prelude.{
  ℕ, ◌+◌, ◌-◌, ◌^◌, ◌≤◌, ◌<◌, ◌≡◌, ◌≢◌, refl, ap, true, List, [], ◌∷◌, ◌++◌, length, take, drop,
  replicate, All, arith, length-append, append_assoc, take-append_length, drop-append_length,
  take-append_past, take-append_left, split_at, ne→==, le→leb,
}
use icon.NumberBuffer.{number_buffer, set_bytes, IsU64, u64}
use icon.NumberBuffer.Encode.{
  groups, padding, length-groups, set_value-groups, get_occupied_bytes-groups,
}
use icon.NumberBuffer.RoundTrip.{set_bytes-groups, set_bytes_part}
use icon.Message.{
  Message, done, c_string, range, read_found, create_optimal_buffer, can_read_full_message,
  try_read_message_from_buffer,
}

-- The number of bytes behind the size, and the frame: the size in base 128 and those bytes.
abbrev pub body_size : Message → ℕ
body_size msg = length msg.title + 1 + length msg.payload

abbrev pub header : Message → List ℕ
header msg = groups 9 (body_size msg)

abbrev pub body : Message → List ℕ
body msg = msg.title ++ (0 ∷ msg.payload)

abbrev pub frame : Message → List ℕ
frame msg = header msg ++ body msg

-- A title is a C string, and no size wraps.
pub record IsMessage (msg : Message) : Type 0 where
  pub no_zero : All (λ b. b ≢ 0) msg.title
  pub fits : body_size msg + 10 < 2 ^ 64

pub length-body : (msg : Message) → length (body msg) ≡ body_size msg
length-body msg = omega (arith, length-append msg.title (0 ∷ msg.payload))

pub length-frame : (msg : Message) → length (frame msg) ≡ length (header msg) + body_size msg
length-frame msg = omega (arith, length-append (header msg) (body msg), length-body msg)

pub ten_zeros : length (number_buffer.bytes) ≡ 10
unfolding number_buffer
ten_zeros = refl

pub create_optimal_buffer-frame :
    (msg : Message) (buffer : List ℕ)
    → IsU64 (body_size msg)
    → create_optimal_buffer msg buffer ≡ frame msg
unfolding create_optimal_buffer
create_optimal_buffer-frame msg buffer h =
    let n : ℕ = body_size msg in
    let same : u64 n ≡ n = omega arith in
    let zeros : List ℕ = replicate (padding 9 n) 0 in
    rw (
      same,
      set_value-groups number_buffer n h,
      get_occupied_bytes-groups n (padding 9 n) h,
      take-append_length (groups 9 n) zeros (length (groups 9 n)) refl,
    )

pub c_string-title :
    (title more : List ℕ) → All (λ b. b ≢ 0) title → c_string (title ++ (0 ∷ more)) ≡ done title
unfolding c_string
c_string-title [] more h = refl
c_string-title (b ∷ bs) more (h, hs) = rw (ne→== b 0 h, c_string-title bs more hs)

-- A range that ends where its front part, its middle and its back part meet.
range-middle :
    (front middle back : List ℕ) (from to : ℕ)
    → from ≡ length front
    → to ≡ length front + length middle
    → range (front ++ (middle ++ back)) from to ≡ done middle
unfolding range
range-middle front middle back from to hf ht =
    let whole = length-append front (middle ++ back) in
    let later = length-append middle back in
    rw (
      le→leb from to (omega arith),
      le→leb to (length (front ++ (middle ++ back))) (omega arith),
      drop-append_length front (middle ++ back) from hf,
      take-append_length middle back (to - from) (omega arith),
    )

-- Behind a size of `n` bytes of digits, the message and the end of its frame are found.
read_found-frame :
    (msg : Message) (rest : List ℕ)
    → IsMessage msg
    → read_found (frame msg ++ rest) (body_size msg) (length (header msg))
      ≡ done (msg, length (frame msg))
unfolding read_found
read_found-frame msg rest is =
    let hd = header msg in
    let t = msg.title in
    let d = msg.payload in
    let behind : frame msg ++ rest ≡ hd ++ (t ++ (0 ∷ (d ++ rest))) = simp append_assoc in
    let before : frame msg ++ rest ≡ (hd ++ (t ++ (0 ∷ []))) ++ (d ++ rest) = simp append_assoc in
    let titled : c_string (drop (length hd) (frame msg ++ rest)) ≡ done t =
      rw (behind, drop-append_length hd (t ++ (0 ∷ (d ++ rest))) (length hd) refl)
        (c_string-title t (d ++ rest) is.no_zero) in
    let ends = length-append hd (t ++ (0 ∷ [])) in
    let ends' = length-append t (0 ∷ []) in
    let ranged : range (frame msg ++ rest) (length hd + length t + 1) (length hd + body_size msg)
        ≡ done d =
      rw before (range-middle (hd ++ (t ++ (0 ∷ []))) d rest _ _ (omega arith) (omega arith)) in
    rw (titled, ranged)
      (ap (λ (n : ℕ). done (msg, n))
        (omega (arith, length-frame msg, is.fits, (length-groups 9 (body_size msg)).1)))

set_bytes-frame :
    (msg : Message) (rest : List ℕ)
    → IsU64 (body_size msg)
    → ((set_bytes number_buffer (frame msg ++ rest)).0.value ≡ body_size msg)
      × ((set_bytes number_buffer (frame msg ++ rest)).1 ≡ length (header msg))
set_bytes-frame msg rest h =
    rw (append_assoc (header msg) (body msg) rest)
      (set_bytes-groups number_buffer ten_zeros (body_size msg) (body msg ++ rest) h)

module _ (old msg : Message) (is : IsMessage msg) where
  frame_sizes :
      (rest : List ℕ)
      → (length (frame msg) ≤ length (frame msg ++ rest))
        × (1 ≤ length (header msg))
        × (u64 (body_size msg + length (header msg)) ≡ length (frame msg))
  frame_sizes rest =
      let longer = length-append (frame msg) rest in
      let parts = length-frame msg in
      let (lo, hi) = length-groups 9 (body_size msg) in (omega arith, lo, omega (arith, is.fits))

  pub try_read-frame :
      (rest : List ℕ)
      → try_read_message_from_buffer old (frame msg ++ rest) ≡ done (msg, length (frame msg))
  unfolding try_read_message_from_buffer
  try_read-frame rest =
      let (value, count) = set_bytes-frame msg rest (omega (arith, is.fits)) in
      let (room, some_byte, total) = frame_sizes rest in
      rw
        (
          count,
          value,
          total,
          ne→== (length (header msg)) 0 (omega arith),
          le→leb (length (frame msg)) (length (frame msg ++ rest)) room,
        )
        (read_found-frame msg rest is)

  pub can_read-frame : (rest : List ℕ) → can_read_full_message (frame msg ++ rest) ≡ true
  unfolding can_read_full_message
  can_read-frame rest =
      let (value, count) = set_bytes-frame msg rest (omega (arith, is.fits)) in
      let (room, some_byte, total) = frame_sizes rest in
      rw (
        count,
        value,
        total,
        ne→== (length (header msg)) 0 (omega arith),
        le→leb (length (frame msg)) (length (frame msg ++ rest)) room,
      )

-- The part of a frame of `j` bytes, with the size cut or whole.
pub set_bytes-short :
    (msg : Message) (j : ℕ)
    → IsU64 (body_size msg)
    → j < length (header msg)
    → (set_bytes number_buffer (take j (frame msg))).1 ≡ 0
set_bytes-short msg j h short =
    let (x, back, e) = split_at (header msg) j short in
    rw (take-append_left (header msg) (body msg) j (omega arith))
      (set_bytes_part number_buffer ten_zeros (body_size msg) x (take j (header msg)) back h e)

pub set_bytes-long :
    (msg : Message) (j : ℕ)
    → IsU64 (body_size msg)
    → length (header msg) ≤ j
    → ((set_bytes number_buffer (take j (frame msg))).0.value ≡ body_size msg)
      × ((set_bytes number_buffer (take j (frame msg))).1 ≡ length (header msg))
set_bytes-long msg j h long = rw (take-append_past (header msg) (body msg) j long) (
    set_bytes-groups number_buffer ten_zeros (body_size msg)
      (take (j - length (header msg)) (body msg)) h)
