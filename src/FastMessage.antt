-- ===== src/FastMessage.antt =====
-- `FastMessage` of src/ASIO.hpp and src/ASIO.cpp, a frame that is decoded where it lies. The pointers `title` and
-- `data` are places in the array `buffer`, and bytes at a pointer with their length are a list. The class does
-- not compile, since `SetEmpty` and `PrepareForDecoding` assign a `uint8_t*` to the `char*` `title`: these are read as if
-- the pointer were cast. `SetMessageBody` and `Decode()` name variables that there are not, and are left out.
pub mod Decoding
mod Examples
use icon.Prelude.{
  ℕ, ◌+◌, ◌-◌, ◌*◌, ◌^◌, Bool, true, false, List, [], ◌∷◌, ◌++◌, length, take, drop, set, not, ltb,
  leb, ◌==◌, if◌then◌else◌,
}
use icon.NumberBuffer.{number_buffer, u64, set_bytes}
use icon.Message.{Outcome, done, undefined, c_string, ◌>>=◌}

abbrev pub max_fast_message_size : ℕ
max_fast_message_size = 64 * 1024

-- The field `data` is `payload` here.
pub record FastMessage : Type 0 where
  pub title_length : ℕ
  pub data_length : ℕ
  pub title_and_data_length : ℕ
  pub whole_message_length : ℕ
  pub title : ℕ
  pub payload : ℕ
  pub buffer : List ℕ

unfoldable pub set_empty : FastMessage → FastMessage
set_empty m = record {
  title_length = 0;
  data_length = 0;
  title_and_data_length = 0;
  whole_message_length = 0;
  title = 0;
  payload = 0;
  buffer = set m.buffer 0 0;
}

-- The constructor, at memory that holds anything
unfoldable pub fast_message : FastMessage → FastMessage
fast_message memory = set_empty memory

unfoldable pub start_writing_buffer : FastMessage → FastMessage
start_writing_buffer m = set_empty m

-- The parameter `data` is not read.
unfoldable pub prepare_for_decoding : FastMessage → (data_bytes : ℕ) → FastMessage × Bool
prepare_for_decoding m data_bytes =
    let (size, head) = set_bytes number_buffer (take m.whole_message_length m.buffer) in
    let whole = u64 (head + size.value) in
    let m' = record m { whole_message_length = whole } in
    if head == 0
    then (m, false)
    else if ltb max_fast_message_size whole
    then (m', false)
    else if ltb data_bytes whole
    then (m', false)
    else (record m' { title = head; title_and_data_length = u64 (whole + (2 ^ 64 - head)) }, true)

-- `buffer[wholeMessageLength] = 0` outside of the array has no meaning, nor has `strlen` without a zero byte.
unfoldable pub decode_internal : FastMessage → Outcome FastMessage
decode_internal m = if leb (length m.buffer) m.whole_message_length then undefined else do
  title ← c_string (drop m.title (set m.buffer m.whole_message_length 0))
  done (record m {
    buffer = set m.buffer m.whole_message_length 0;
    title_length = length title;
    payload = m.title + length title + 1;
    data_length = u64 (m.title_and_data_length + (2 ^ 64 - (length title + 1)));
  })

-- Decode(const void*, uint64_t)
unfoldable pub decode : FastMessage → List ℕ → Outcome (FastMessage × Bool)
decode m bytes =
    let (m', ready) = prepare_for_decoding m (length bytes) in
    if not ready then done (m', false) else do
      m'' ← decode_internal (record m' {
        buffer = take m'.whole_message_length bytes ++ drop m'.whole_message_length m'.buffer;
      })
      done (m'', true)

-- Decode(const std::vector<uint8_t>&), which takes the address of the first byte
unfoldable pub decode_vector : FastMessage → List ℕ → Outcome (FastMessage × Bool)
decode_vector m [] = undefined
decode_vector m (b ∷ bs) = decode m (b ∷ bs)

-- Calls of `Decode`, with what they return
unfoldable pub decode_each : FastMessage → List (List ℕ) → Outcome (FastMessage × List Bool)
decode_each m [] = done (m, [])
decode_each m (bytes ∷ more) = do
  (m', ready) ← decode m bytes
  (m'', answers) ← decode_each m' more
  done (m'', ready ∷ answers)
