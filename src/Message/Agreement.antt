-- ===== src/Message/Agreement.antt =====
-- What `CanReadFullMessage` says of a buffer against what `TryReadMessageFromBuffer` of src/ASIO.cpp makes of it.
use icon.Prelude.{
  Bool-cases, leb→le, take-drop, drop-drop, length-take, length-drop, ℕ, zero, suc, ap, sym, ◌-◌,
  ◌+◌, ◌^◌, ◌≤◌, ◌<◌, ◌≡◌, ◌≢◌, refl, true, false, List, [], ◌∷◌, ◌++◌, length, take, drop, All,
  arith, ne→==, le→leb, inl, inr, leb, ◌⊎◌,
}
use native.Mathlib.Decide.{ℕ_discrete, dec_lt}
use icon.NumberBuffer.{number_buffer, set_bytes, u64}
use icon.Message.{
  Message, done, undefined, c_string, range, read_found, can_read_full_message,
  try_read_message_from_buffer,
}
use icon.Message.Faults.{c_string-long, range-wrong_order, read_found-past}

-- Of bytes among which the first `v` stand, either none of these is 0, or the C string ends within them.
c_string-cases :
    (bs : List ℕ) (v : ℕ)
    → v ≤ length bs
    → All (λ b. b ≢ 0) (take v bs)
      ⊎ ((t : List ℕ) × (c_string bs ≡ done t)
          × (length t < v)
          × (t ++ (0 ∷ take (v - (length t + 1)) (drop (length t + 1) bs)) ≡ take v bs))
unfolding c_string
c_string-cases bs zero h = inl tt
c_string-cases [] (suc v) h = omega arith
c_string-cases (b ∷ bs) (suc v) h = elim (ℕ_discrete b 0) [
  | yes z ↦
      inr ([], rw z refl, omega arith, let left : suc v - 1 ≡ v = omega arith in rw (z, left) refl)
  | no ne ↦ elim (c_string-cases bs v (omega arith)) [
    | inl all ↦ inl (ne, all)
    | inr (t, e, lt, same) ↦
        let left : suc v - (suc (length t) + 1) ≡ v - (length t + 1) = omega arith in
        let from : suc (length t) + 1 ≡ suc (length t + 1) = omega arith in
        inr
          (b ∷ t, rw (ne→== b 0 ne, e) refl, omega arith, rw (left, from) (ap (λ xs. b ∷ xs) same))
  ]
]

-- A message that is whole and has a zero byte.
read_found-whole :
    (buffer t : List ℕ) (v k : ℕ)
    → k + v ≤ length buffer
    → length buffer < 2 ^ 64
    → c_string (drop k buffer) ≡ done t
    → length t < v
    → t ++ (0 ∷ take (v - (length t + 1)) (drop (length t + 1) (drop k buffer)))
      ≡ take v (drop k buffer)
    → (m : Message) × (read_found buffer v k ≡ done (m, k + v))
      × (m.title ++ (0 ∷ m.payload) ≡ take v (drop k buffer))
unfolding read_found range
read_found-whole buffer t v k fits short e lt same =
    let payload = take (v - (length t + 1)) (drop (length t + 1) (drop k buffer)) in
    let behind = sym (drop-drop (length t + 1) k buffer) in
    let order = le→leb (k + length t + 1) (k + v) (omega arith) in
    let inside = le→leb (k + v) (length buffer) fits in
    let left : k + v - (k + length t + 1) ≡ v - (length t + 1) = omega arith in
    let from : k + length t + 1 ≡ k + (length t + 1) = omega arith in
    let count : u64 (k + v) ≡ k + v = omega arith in
    (
      record { title = t; payload = payload },
      rw (e, order, inside, left, from, behind, count) refl,
      same,
    )

-- A message that is whole and has none.
read_found-endless :
    (buffer : List ℕ) (v k : ℕ)
    → k + v ≤ length buffer
    → All (λ b. b ≢ 0) (take v (drop k buffer))
    → read_found buffer v k ≡ undefined
unfolding read_found
read_found-endless buffer v k fits all =
    elim (c_string-long (take v (drop k buffer)) (drop v (drop k buffer)) all) [
      | inl u ↦ let none_ends = rw (take-drop v (drop k buffer)) at u in rw none_ends
      | inr (s, e, longer) ↦
          let found = rw (take-drop v (drop k buffer)) at e in
          let len = length-take (drop k buffer) v (omega (arith, length-drop k buffer)) in
          rw (found, range-wrong_order buffer (k + length s + 1) (k + v) (omega arith))
    ]

-- The message that stands whole behind its size: the count is that of both, and title, zero byte and data are its bytes.
abbrev pub Found : Message → List ℕ → (v k : ℕ) → Type 0
Found old buffer v k =
    (m : Message) × (try_read_message_from_buffer old buffer ≡ done (m, k + v))
    × (1 ≤ k + v)
    × (k + v ≤ length buffer)
    × (m.title ++ (0 ∷ m.payload) ≡ take v (drop k buffer))

-- The sum of the size and its own bytes wraps, or the message has no zero byte.
abbrev pub Faulty : Message → List ℕ → (v k : ℕ) → Type 0
Faulty old buffer v k =
    (try_read_message_from_buffer old buffer ≡ undefined)
    × ((2 ^ 64 ≤ v + k) ⊎ All (λ b. b ≢ 0) (take v (drop k buffer)))

try_read-nothing :
    (old : Message) (buffer : List ℕ)
    → can_read_full_message buffer ≡ false
    → try_read_message_from_buffer old buffer ≡ done (old, 0)
unfolding try_read_message_from_buffer can_read_full_message
try_read-nothing old buffer no' = ground (arith, no')

try_read-outcome :
    (old : Message) (buffer : List ℕ)
    → length buffer < 2 ^ 64
    → can_read_full_message buffer ≡ true
    → Found old buffer (set_bytes number_buffer buffer).0.value (set_bytes number_buffer buffer).1
      ⊎ Faulty old buffer
          (set_bytes number_buffer buffer).0.value
          (set_bytes number_buffer buffer).1
unfolding try_read_message_from_buffer can_read_full_message
try_read-outcome old buffer short yes' =
    let v : ℕ = (set_bytes number_buffer buffer).0.value in
    let k : ℕ = (set_bytes number_buffer buffer).1 in
    let found : (1 ≤ k) × (leb (u64 (v + k)) (length buffer) ≡ true) = ground (arith, yes') in
    let some_byte = ne→== k 0 (omega (arith, found.0)) in
    elim (dec_lt (length buffer) (k + v)) [
      | yes past ↦ inr (
        rw (some_byte, found.1) (read_found-past buffer v k past),
        inl (let bound = leb→le (u64 (v + k)) (length buffer) found.1 in omega arith),
      )
      | no fits ↦ elim (c_string-cases (drop k buffer) v (omega (arith, length-drop k buffer))) [
        | inl all ↦
            inr (rw (some_byte, found.1) (read_found-endless buffer v k (omega arith) all), inr all)
        | inr (t, e, lt, same) ↦
            let (m, reads, parts) = read_found-whole buffer t v k (omega arith) short e lt same in
            inl (m, rw (some_byte, found.1) reads, omega (arith, found.0), omega arith, parts)
      ]
    ]

-- `CanReadFullMessage` and `TryReadMessageFromBuffer` agree on any buffer of fewer than 2 ^ 64 bytes: where the first
-- says no, the second reports 0 and leaves the message alone. Where it says yes, the second reports the bytes of the
-- size and of the message, at least 1 and no more than the buffer has, and title, zero byte and data are those behind
-- the size; or else it has no meaning, and then the size with its own bytes reaches 2 ^ 64 or there is no zero byte
-- among the bytes behind it.
pub try_read_agrees :
    (old : Message) (buffer : List ℕ)
    → length buffer < 2 ^ 64
    → ((can_read_full_message buffer ≡ false)
        × (try_read_message_from_buffer old buffer ≡ done (old, 0)))
      ⊎ ((can_read_full_message buffer ≡ true)
          × (Found old buffer
                (set_bytes number_buffer buffer).0.value
                (set_bytes number_buffer buffer).1
              ⊎ Faulty old buffer
                  (set_bytes number_buffer buffer).0.value
                  (set_bytes number_buffer buffer).1))
try_read_agrees old buffer short = elim (Bool-cases (can_read_full_message buffer)) [
  | inl yes' ↦ inr (yes', try_read-outcome old buffer short yes')
  | inr no' ↦ inl (no', try_read-nothing old buffer no')
]
