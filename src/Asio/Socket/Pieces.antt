-- ===== src/Asio/Socket/Pieces.antt =====
-- The pieces of a fetch: the cut of the buffer, the bytes of the frame that a chunk brings, and what is
-- asked for next.
use icon.Prelude.{
  ℕ, ◌+◌, ◌-◌, ◌^◌, ◌≤◌, ◌<◌, ◌≡◌, inl, inr, refl, ap, sym, ◌∙◌, true, false, List, [], ◌++◌,
  length, take, replicate, ◌==◌, arith, append-nil, length-append, take-append_left,
  take-append_length, take-all, length-replicate, Bool-cases, ==→eq,
}
use icon.NumberBuffer.{u64}
use icon.Message.{Message, done, create_optimal_buffer}
use icon.Message.RoundTrip.{IsMessage, header, frame, create_optimal_buffer-frame}
use icon.Asio.Socket.{Socket, resize, valid, process_buffer, fetch_data}
use icon.Asio.Socket.Fetch.{asking, granted, granted-le, process-short, process-part}
use icon.Asio.Socket.Stream.{Room, Reading}
use mathlib.Core.Logic.{ite, if_pos, if_neg}
use native.Mathlib.Decide.{dec_lt}

resize-shorter : (buffer : List ℕ) (n : ℕ) → n ≤ length buffer → resize buffer n ≡ take n buffer
unfolding resize
resize-shorter buffer n h = let e : n - length buffer ≡ 0 = omega arith in rw (e, append-nil)

-- `FetchData` first cuts the buffer behind what was delivered.
pub fetch_data-cut :
    {T : Type 0} (s : Socket T) (rest chunk : List ℕ)
    → valid s ≡ true
    → take (length rest + length chunk) s.buffer ≡ rest ++ chunk
    → length s.buffer ≡ length rest + s.fetch_request_size
    → length chunk ≤ s.fetch_request_size
    → length s.buffer < 2 ^ 64
    → fetch_data s false (length chunk)
      ≡ process_buffer (record s { buffer = rest ++ chunk; fetch_request_size = 0 })
unfolding fetch_data
fetch_data-cut s rest chunk v cut size fits small =
    elim (Bool-cases (s.fetch_request_size == length chunk)) [
      | inl all ↦
          rw (all, v)
            (ap (λ b. process_buffer (record s { buffer = b; fetch_request_size = 0 })) (whole all))
      | inr some_left ↦
          rw (some_left, v)
            (ap (λ b. process_buffer (record s { buffer = b; fetch_request_size = 0 })) shorter)
    ]
  where
    whole : (s.fetch_request_size == length chunk) ≡ true → s.buffer ≡ rest ++ chunk
    whole all =
        sym (
          take-all s.buffer (length rest + length chunk)
            (omega (arith, ==→eq s.fetch_request_size (length chunk) all)))
        ∙ cut

    shorter :
        resize s.buffer
          (u64 (length s.buffer + 2 ^ 64 - u64 (s.fetch_request_size + 2 ^ 64 - length chunk)))
        ≡ rest ++ chunk
    shorter =
        let n : u64 (length s.buffer + 2 ^ 64 - u64 (s.fetch_request_size + 2 ^ 64 - length chunk))
            ≡ length rest + length chunk =
          omega arith in
        rw n (resize-shorter s.buffer (length rest + length chunk) (omega arith) ∙ cut)

-- The bytes of the frame that a chunk brings.
pub next_bytes :
    (front more back behind : List ℕ)
    → front ++ more ≡ back ++ behind
    → length front ≤ length back
    → front ≡ take (length front) back
next_bytes front more back behind e h =
    sym (take-append_length front more (length front) refl)
    ∙ ap (take (length front)) e
    ∙ take-append_left back behind (length front) h

-- Room for `k` more bytes at the end of the buffer.
pub asking-Reading :
    {T : Type 0} (s : Socket T) (k : ℕ) (todo : List Message) (delivered : List ℕ)
    (popped : List Message)
    → valid s ≡ true
    → 1 ≤ k
    → Room todo (length s.buffer + k)
    → Reading
        (record {
          socket = (asking s k).0;
          request = (asking s k).1;
          delivered = delivered;
          popped = popped;
        })
        todo
        s.buffer
unfolding valid
asking-Reading s k todo delivered popped v some_byte room = record {
  is_valid = v;
  size = omega (arith, length-append s.buffer (replicate k 0), length-replicate {A = ℕ} k 0);
  held = take-append_length s.buffer (replicate k 0) (length s.buffer) refl;
  asked = refl;
  some_byte = some_byte;
  room = room;
}

-- What the rest of `FetchData` does with the bytes `rest` of the stream, of which the next frame is
-- that of `m`.
module _ {T : Type 0} (m : Message) (ms : List Message) (is : IsMessage m) (s : Socket T)
    (v : valid s ≡ true) (idle : s.fetch_request_size ≡ 0)
    (at : s.buffer ≡ take (length s.buffer) (create_optimal_buffer m [])) where
  created : create_optimal_buffer m [] ≡ frame m
  created = create_optimal_buffer-frame m [] (omega (arith, is.fits))

  at_frame : s.buffer ≡ take (length s.buffer) (frame m)
  at_frame = rw created at at

  -- What the socket asks for next, when the frame is not complete.
  pub next_fetch : ℕ
  next_fetch =
      ite (dec_lt (length s.buffer) (length (header m))) 1 (length (frame m) - length s.buffer)

  pub process-unfinished :
      1 ≤ length s.buffer
      → length s.buffer < length (frame m)
      → process_buffer s ≡ done (asking s (granted next_fetch))
  unfolding next_fetch
  process-unfinished begun part = elim (dec_lt (length s.buffer) (length (header m))) [
    | yes short ↦
        rw (if_pos _ short) (process-short m is s (length s.buffer) v at_frame idle begun short)
    | no long ↦
        rw (if_neg _ long)
          (process-part m is s (length s.buffer) v at_frame idle (omega arith) part)
  ]

  pub next_fetch_fits :
      length s.buffer < length (frame m) → length s.buffer + granted next_fetch ≤ length (frame m)
  unfolding next_fetch
  next_fetch_fits part = elim (dec_lt (length s.buffer) (length (header m))) [
    | yes short ↦ rw (if_pos _ short) (omega arith)
    | no long ↦
        rw (if_neg _ long)
          (omega (arith, granted-le (length (frame m) - length s.buffer) (omega arith)))
  ]
