-- ===== src/FastMessage/Decoding.antt =====
-- What the decoding functions of `FastMessage` in src/ASIO.cpp find.
use icon.Prelude.{
  ℕ, zero, suc, ◌+◌, ◌-◌, ◌^◌, ◌≤◌, ◌<◌, ◌≡◌, refl, ap, ◌∙◌, sym, ◌⊎◌, inl, inr, true, false, List,
  [], ◌∷◌, length, take, drop, set, replicate, ltb, ◌==◌, arith, lt→leb, Bool-cases, ltb→le,
}
use native.Mathlib.Decide.{dec_lt}
use icon.NumberBuffer.{number_buffer, u64, set_bytes}
use icon.Message.{done, c_string}
use icon.FastMessage.{
  max_fast_message_size, FastMessage, set_empty, fast_message, prepare_for_decoding,
  decode_internal, decode, decode_each,
}

-- However often `Decode` is called on an object as the constructor makes it, with whatever bytes: each call returns
-- false, and the object stays as it was.
pub decode_each-never :
    (memory : FastMessage) (inputs : List (List ℕ))
    → decode_each (fast_message memory) inputs
      ≡ done (fast_message memory, replicate (length inputs) false)
unfolding decode_each decode prepare_for_decoding fast_message set_empty set_bytes
decode_each-never memory [] = refl
decode_each-never memory (bytes ∷ more) = rw (decode_each-never memory more)

length-set : (bs : List ℕ) (i b : ℕ) → length (set bs i b) ≡ length bs
length-set [] i b = refl
length-set (x ∷ xs) zero b = refl
length-set (x ∷ xs) (suc i) b = ap suc (length-set xs i b)

-- A zero byte at `to` ends the C string from any place before it.
c_string-set :
    (bs : List ℕ) (from to : ℕ)
    → from ≤ to
    → to < length bs
    → (s : List ℕ) × (c_string (drop from (set bs to 0)) ≡ done s) × (from + length s ≤ to)
unfolding c_string
c_string-set [] from to lo hi = absurd (omega arith)
c_string-set (b ∷ bs) zero zero lo hi = ([], refl, omega arith)
c_string-set (b ∷ bs) zero (suc to) lo hi =
    let (s, e, le) = c_string-set bs zero to (omega arith) (omega arith) in
    elim (Bool-cases (b == 0)) [
      | inl t ↦ ([], rw t, omega arith)
      | inr f ↦ (b ∷ s, rw (f, e), omega arith)
    ]
c_string-set (b ∷ bs) (suc from) zero lo hi = absurd (omega arith)
c_string-set (b ∷ bs) (suc from) (suc to) lo hi =
    let (s, e, le) = c_string-set bs from to (omega arith) (omega arith) in (s, e, omega arith)

-- The size that is read from the bytes written so far
abbrev pub size_read : FastMessage → ℕ × ℕ
size_read m =
    let (size, head) = set_bytes number_buffer (take m.whole_message_length m.buffer) in
    (size.value, head)

-- What `PrepareForDecoding` leaves where it returns true
record IsPrepared (m m' : FastMessage) : Type 0 where
  whole : m'.whole_message_length ≡ (size_read m).0 + (size_read m).1
  fits : m'.whole_message_length ≤ max_fast_message_size
  title : m'.title ≡ (size_read m).1
  body : m'.title_and_data_length ≡ (size_read m).0
  buffer : m'.buffer ≡ m.buffer

prepare_true :
    (m m' : FastMessage) (n : ℕ)
    → (size_read m).0 + (size_read m).1 < 2 ^ 64
    → prepare_for_decoding m n ≡ (m', true)
    → IsPrepared m m'
unfolding prepare_for_decoding
prepare_true m m' n small e =
    let (size, head) = set_bytes number_buffer (take m.whole_message_length m.buffer) in
    let whole : u64 (head + size.value) ≡ size.value + head = omega arith in
    elim (Bool-cases (head == 0)) [
      | inl t ↦ let e' = rw t at e in cc
      | inr f ↦ elim (Bool-cases (ltb max_fast_message_size (u64 (head + size.value)))) [
        | inl t ↦ let e' = rw (f, t) at e in cc
        | inr g ↦ elim (Bool-cases (ltb n (u64 (head + size.value)))) [
          | inl t ↦ let e' = rw (f, g, t) at e in cc
          | inr h ↦
              let e' = rw (f, g, h) at e in
              let at_end = sym (ap (λ z. z.0.whole_message_length) e') ∙ whole in
              let rest = sym (ap (λ z. z.0.title_and_data_length) e') in
              record {
                whole = at_end;
                fits = omega (arith, ltb→le _ _ g);
                title = sym (ap (λ z. z.0.title) e');
                body = rest ∙ omega arith;
                buffer = sym (ap (λ z. z.0.buffer) e');
              }
        ]
      ]
    ]

-- Where `title` lies in the message, and `data` with it where the message has a zero byte; else the length of `data`
-- has wrapped.
pub record IsWithin (m : FastMessage) : Type 0 where
  pub title_inside : m.title + m.title_length ≤ m.whole_message_length
  pub data_behind : m.payload ≡ m.title + m.title_length + 1
  pub data_inside :
      (m.payload + m.data_length ≡ m.whole_message_length)
      ⊎ ((m.title + m.title_length ≡ m.whole_message_length) × (m.data_length ≡ 2 ^ 64 - 1))

-- Where `PrepareForDecoding` returns true, on an object whose array has its 65537 bytes, and the size that is read does
-- not wrap with its own bytes: `DecodeInternal` has a meaning. The title then ends within the message, and either the
-- data behind it end where the message ends, or the title ends there and the length of the data is 2 ^ 64 - 1.
pub prepare_for_decoding-decode_internal :
    (m m' : FastMessage) (data_bytes : ℕ)
    → length m.buffer ≡ max_fast_message_size + 1
    → (size_read m).0 + (size_read m).1 < 2 ^ 64
    → prepare_for_decoding m data_bytes ≡ (m', true)
    → (m'' : FastMessage) × (decode_internal m' ≡ done m'') × IsWithin m''
unfolding decode_internal
prepare_for_decoding-decode_internal m m' data_bytes array small e =
    let is = prepare_true m m' data_bytes small e in
    let long : length m'.buffer ≡ max_fast_message_size + 1 = ap length is.buffer ∙ array in
    let fits = is.fits in
    let sum : m'.whole_message_length ≡ m'.title_and_data_length + m'.title =
      is.whole ∙ omega (arith, is.body, is.title) in
    let (s, found, inside) =
      c_string-set m'.buffer m'.title m'.whole_message_length (omega arith) (omega arith) in
    (
      record m' {
        buffer = set m'.buffer m'.whole_message_length 0;
        title_length = length s;
        payload = m'.title + length s + 1;
        data_length = u64 (m'.title_and_data_length + (2 ^ 64 - (length s + 1)));
      },
      rw (lt→leb (length m'.buffer) m'.whole_message_length (omega arith), found),
      record {
        title_inside = inside;
        data_behind = refl;
        data_inside = elim (dec_lt (m'.title + length s) m'.whole_message_length) [
          | yes less ↦ inl (omega arith)
          | no more ↦ inr (omega arith, omega arith)
        ];
      },
    )
