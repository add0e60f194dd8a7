-- ===== src/Message.antt =====
-- `Message` and the message frame of src/ASIO.hpp and src/ASIO.cpp: the size of title, zero byte and
-- data as a `NumberBuffer`, then the title, a zero byte, and the data. A `std::string` and a
-- `std::vector<uint8_t>` are lists of bytes.
pub mod RoundTrip
pub mod Framing
pub mod Faults
pub mod Agreement
mod Examples
use icon.Prelude.{
  ℕ, zero, suc, ◌+◌, ◌-◌, ◌≤◌, ◌<◌, Bool, true, false, Option, none, some, List, [], ◌∷◌, ◌++◌,
  length, take, drop, replicate, ltb, leb, ◌==◌, if◌then◌else◌, arith,
}
use icon.NumberBuffer.{number_buffer, u64, set_value, get_occupied_bytes, set_bytes, NumberBuffer}

-- The field `data` is `payload` here.
pub record Message : Type 0 where
  pub title : List ℕ
  pub payload : List ℕ

-- Message()
unfoldable pub message : Message
message = record { title = []; payload = [] }

-- Message(const std::string&)
unfoldable pub message_of_title : List ℕ → Message
message_of_title title = record { title = title; payload = [] }

-- Message(const std::string&, const std::vector<uint8_t>&)
unfoldable pub message_of_bytes : List ℕ → List ℕ → Message
message_of_bytes title bytes = record { title = title; payload = bytes }

-- Message(const std::string&, const std::string&), which keeps the string's end.
unfoldable pub message_of_text : List ℕ → List ℕ → Message
message_of_text title text = record { title = title; payload = text ++ (0 ∷ []) }

-- Message(const std::string&, void*, int). `none` for a null pointer, whose zeros remain.
unfoldable pub message_of_pointer : List ℕ → Option (List ℕ) → ℕ → Message
message_of_pointer title none n = record { title = title; payload = replicate n 0 }
message_of_pointer title (some span) n = record { title = title; payload = take n span }

-- The copy constructor, and the move constructor, which copies
unfoldable pub copy_message : Message → Message
copy_message other = record { title = other.title; payload = other.payload }

-- The assignment, and `Swap`: the new `*this` and `other`.
unfoldable pub assign_message : Message → Message → Message
assign_message msg other = record { title = other.title; payload = other.payload }

unfoldable pub swap : Message → Message → Message × Message
swap msg other = (
  record { title = other.title; payload = other.payload },
  record { title = msg.title; payload = msg.payload },
)

-- The constructor NumberBuffer(uint64_t) followed by the four appends to the cleared vector.
unfoldable pub create_optimal_buffer : Message → List ℕ → List ℕ
create_optimal_buffer msg buffer =
    let size = (set_value number_buffer (u64 (length msg.title + 1 + length msg.payload))).0 in
    let sizebytes = get_occupied_bytes size in
    let cleared : List ℕ = [] in
    let headed = cleared ++ take sizebytes size.bytes in headed ++ (msg.title ++ (0 ∷ msg.payload))

-- `size.GetValue()+sizebytes` is 64-bit arithmetic.
unfoldable pub can_read_full_message : List ℕ → Bool
can_read_full_message buffer =
    let (size, sizebytes) = set_bytes number_buffer buffer in
    if sizebytes == 0 then false else leb (u64 (size.value + sizebytes)) (length buffer)

-- What a read of memory past the buffer, or a range whose ends are in the wrong order, makes of a
-- call: C++ gives it no meaning.
pub data Outcome {ℓ} (A : Type ℓ) : Type ℓ where
  done : A → Outcome A
  undefined : Outcome A

-- `std::string = (char*)p`: the bytes before the first zero byte, which must be in the buffer.
unfoldable pub c_string : List ℕ → Outcome (List ℕ)
c_string [] = undefined
c_string (b ∷ bs) =
    let rest = c_string bs in
    if b == 0 then done [] else elim rest [ done s ↦ done (b ∷ s) | undefined ↦ undefined ]

-- `insert(end, buffer + from, buffer + to)`.
unfoldable pub range : List ℕ → (from to : ℕ) → Outcome (List ℕ)
range buffer from to =
    if leb from to
    then if leb to (length buffer) then done (take (to - from) (drop from buffer)) else undefined
    else undefined

infixl 5 ◌>>=◌
abbrev pub ◌>>=◌ {ℓ κ} : {A : Type ℓ} {B : Type κ} → Outcome A → (A → Outcome B) → Outcome B
done a >>= f = f a
undefined >>= f = undefined

-- The message that stands behind `sizebytes` bytes of size, of which `value` was read.
unfoldable pub read_found : List ℕ → (value sizebytes : ℕ) → Outcome (Message × ℕ)
read_found buffer value sizebytes = do
  title ← c_string (drop sizebytes buffer)
  payload ← range buffer (sizebytes + length title + 1) (sizebytes + value)
  done (record { title = title; payload = payload }, u64 (sizebytes + value))

-- The message read and the number of bytes used; 0 leaves the message as it was.
unfoldable pub try_read_message_from_buffer : Message → List ℕ → Outcome (Message × ℕ)
try_read_message_from_buffer msg buffer =
    let (size, sizebytes) = set_bytes number_buffer buffer in
    if sizebytes == 0
    then done (msg, 0)
    else if leb (u64 (size.value + sizebytes)) (length buffer)
    then read_found buffer size.value sizebytes
    else done (msg, 0)
