-- ===== src/Message/Faults.antt =====
-- `TryReadMessageFromBuffer` on bytes that no `CreateOptimalBuffer` wrote.
use icon.Prelude.{
  ℕ, ◌+◌, ◌^◌, ◌≤◌, ◌<◌, ◌≡◌, ◌≢◌, refl, true, List, [], ◌∷◌, ◌++◌, length, take, drop, All, arith,
  length-append, drop-append_length, ne→==, le→leb, lt→leb, take-append_length, inl, inr, leb, ◌⊎◌,
  replicate,
}
use icon.NumberBuffer.{NumberBuffer, number_buffer, set_value, u64}
use icon.NumberBuffer.Encode.{groups, padding, length-groups, length-groups_full, set_value-groups}
use icon.NumberBuffer.RoundTrip.{set_bytes-groups}
use icon.Message.{
  Message, Outcome, done, undefined, c_string, range, read_found, can_read_full_message,
  try_read_message_from_buffer,
}
use icon.Message.RoundTrip.{ten_zeros}

pub Outcome-cases {ℓ} : {A : Type ℓ} (o : Outcome A) → (o ≡ undefined) ⊎ ((a : A) × (o ≡ done a))
Outcome-cases (done a) = inr (a, refl)
Outcome-cases undefined = inl refl

-- Behind bytes that are not 0 a C string is at least as long as they are.
pub c_string-long :
    (bs more : List ℕ)
    → All (λ b. b ≢ 0) bs
    → (c_string (bs ++ more) ≡ undefined)
      ⊎ ((s : List ℕ) × (c_string (bs ++ more) ≡ done s) × (length bs ≤ length s))
unfolding c_string
c_string-long [] more h = elim (Outcome-cases (c_string more)) [
  | inl e ↦ inl e
  | inr (s, e) ↦ inr (s, e, omega arith)
]
c_string-long (b ∷ bs) more (h, hs) = elim (c_string-long bs more hs) [
  | inl e ↦ inl (rw (ne→== b 0 h, e))
  | inr (s, e, longer) ↦ inr (b ∷ s, rw (ne→== b 0 h, e), omega arith)
]

pub range-wrong_order :
    (buffer : List ℕ) (from to : ℕ) → to < from → range buffer from to ≡ undefined
unfolding range
range-wrong_order buffer from to h = rw (lt→leb from to h)

read_found-unterminated :
    (hd bs more : List ℕ)
    → All (λ b. b ≢ 0) bs
    → read_found (hd ++ (bs ++ more)) (length bs) (length hd) ≡ undefined
unfolding read_found
read_found-unterminated hd bs more h =
    let behind = drop-append_length hd (bs ++ more) (length hd) refl in
    elim (c_string-long bs more h) [
      | inl e ↦ rw (behind, e)
      | inr (s, e, longer) ↦ rw (
        behind,
        e,
        range-wrong_order (hd ++ (bs ++ more)) (length hd + length s + 1) (length hd + length bs)
            (omega arith),
      )
    ]

-- Take a size of `v` bytes and `v` bytes of which none is 0, with anything behind them. Then
-- `CanReadFullMessage` says that a full message is there, and `TryReadMessageFromBuffer` has no
-- meaning: it reads the title past the message's end, and takes the data from behind that to the end.
pub try_read_unterminated :
    (nb : NumberBuffer) (old : Message) (bs more : List ℕ)
    → All (λ b. b ≢ 0) bs
    → length bs + 10 < 2 ^ 64
    → (can_read_full_message
          (take (set_value nb (length bs)).1 (set_value nb (length bs)).0.bytes ++ (bs ++ more))
        ≡ true)
      × (try_read_message_from_buffer old
            (take (set_value nb (length bs)).1 (set_value nb (length bs)).0.bytes ++ (bs ++ more))
          ≡ undefined)
unfolding try_read_message_from_buffer can_read_full_message
try_read_unterminated nb old bs more h fits =
    let v : ℕ = length bs in
    let hd : List ℕ = groups 9 v in
    let cut = take-append_length hd (replicate (padding 9 v) 0) (length hd) refl in
    let (value, count) = set_bytes-groups number_buffer ten_zeros v (bs ++ more) (omega arith) in
    let (lo, hi) = length-groups 9 v in
    let whole = length-append hd (bs ++ more) in
    let parts = length-append bs more in
    let room : leb (u64 (v + length hd)) (length (hd ++ (bs ++ more))) ≡ true =
      le→leb _ _ (omega arith) in
    rw
      (
        set_value-groups nb v (omega arith),
        cut,
        count,
        value,
        ne→== (length hd) 0 (omega arith),
        room,
      )
      (refl, read_found-unterminated hd bs more h)

range-past : (buffer : List ℕ) (from to : ℕ) → length buffer < to → range buffer from to ≡ undefined
unfolding range
range-past buffer from to h = rw (lt→leb to (length buffer) h) (ground arith)

pub read_found-past :
    (buffer : List ℕ) (value sizebytes : ℕ)
    → length buffer < sizebytes + value
    → read_found buffer value sizebytes ≡ undefined
unfolding read_found
read_found-past buffer value sizebytes h = elim (Outcome-cases (c_string (drop sizebytes buffer))) [
  | inl u ↦ rw u
  | inr (t, f) ↦ rw (f, range-past buffer (sizebytes + length t + 1) (sizebytes + value) h)
]

-- Take a size `v` of 2 ^ 64 - 10 or more, which `SetValue` writes as ten bytes, and any bytes behind it. `SetBytes` reads
-- it, and its sum with the ten bytes wraps to less than ten: `CanReadFullMessage` says that a full message is there,
-- and `TryReadMessageFromBuffer` has no meaning.
pub try_read_wraps :
    (nb : NumberBuffer) (old : Message) (v : ℕ) (more : List ℕ)
    → 2 ^ 64 ≤ v + 10
    → v < 2 ^ 64
    → length more + 10 < 2 ^ 64
    → (can_read_full_message (take (set_value nb v).1 (set_value nb v).0.bytes ++ more) ≡ true)
      × (try_read_message_from_buffer old (take (set_value nb v).1 (set_value nb v).0.bytes ++ more)
          ≡ undefined)
unfolding try_read_message_from_buffer can_read_full_message
try_read_wraps nb old v more big fits short =
    let hd : List ℕ = groups 9 v in
    let cut = take-append_length hd (replicate (padding 9 v) 0) (length hd) refl in
    let (value, count) = set_bytes-groups number_buffer ten_zeros v more fits in
    let ten : length hd ≡ 10 = length-groups_full 9 v (omega arith) in
    let whole = length-append hd more in
    let room : leb (u64 (v + length hd)) (length (hd ++ more)) ≡ true = le→leb _ _ (omega arith) in
    rw (set_value-groups nb v fits, cut, count, value, ne→== (length hd) 0 (omega arith), room)
      (refl, read_found-past (hd ++ more) v (length hd) (omega arith))
