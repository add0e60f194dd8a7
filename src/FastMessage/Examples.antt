-- ===== src/FastMessage/Examples.antt =====
-- Concrete buffers, decoded by `FastMessage` of src/ASIO.cpp.
use icon.Prelude.{
  ℕ, ◌+◌, ◌-◌, ◌^◌, ◌<◌, ◌≡◌, refl, true, List, ◌∷◌, length, replicate, length-replicate, take,
  arith,
}
use icon.NumberBuffer.{number_buffer, set_bytes}
use icon.Message.{done}
use icon.FastMessage.{FastMessage, prepare_for_decoding, decode_internal}
use icon.FastMessage.Decoding.{IsWithin, prepare_for_decoding-decode_internal}

-- An object with these bytes in its array, of which the first ten are counted
abbrev holding : List ℕ → FastMessage
holding bytes = record {
  title_length = 0;
  data_length = 0;
  title_and_data_length = 0;
  whole_message_length = 10;
  title = 0;
  payload = 0;
  buffer = bytes;
}

abbrev sevens : ℕ → List ℕ
sevens n = replicate n 7

-- Two bytes of title, without a zero byte
abbrev untitled : FastMessage
untitled = holding (2 ∷ 65 ∷ 66 ∷ sevens 65534)

untitled_array : length untitled.buffer ≡ 65537
untitled_array = omega (arith, length-replicate {A = ℕ} 65534 7)

untitled_ready :
    prepare_for_decoding untitled 3
    ≡ (record untitled { whole_message_length = 3; title = 1; title_and_data_length = 2 }, true)
unfolding prepare_for_decoding set_bytes number_buffer
untitled_ready = refl

untitled_small :
    (set_bytes number_buffer (take 10 untitled.buffer)).0.value
      + (set_bytes number_buffer (take 10 untitled.buffer)).1
    < 2 ^ 64
unfolding set_bytes number_buffer
untitled_small = omega arith

prepare_for_decoding-decode_internal_example :
    (m : FastMessage) × (decode_internal
        (record untitled { whole_message_length = 3; title = 1; title_and_data_length = 2 })
      ≡ done m)
    × IsWithin m
prepare_for_decoding-decode_internal_example =
    prepare_for_decoding-decode_internal untitled
      (record untitled { whole_message_length = 3; title = 1; title_and_data_length = 2 }) 3
      untitled_array untitled_small untitled_ready

-- A size of 2 ^ 64 - 1 wraps with its ten bytes, and `title` is behind the message of 9 bytes that is said to be ready.
wrapped :
    prepare_for_decoding
      (holding (255 ∷ 255 ∷ 255 ∷ 255 ∷ 255 ∷ 255 ∷ 255 ∷ 255 ∷ 255 ∷ 1 ∷ sevens 65527))
      9
    ≡ (
      record (holding (255 ∷ 255 ∷ 255 ∷ 255 ∷ 255 ∷ 255 ∷ 255 ∷ 255 ∷ 255 ∷ 1 ∷ sevens 65527)) {
        whole_message_length = 9;
        title = 10;
        title_and_data_length = 2 ^ 64 - 1;
      },
      true,
    )
unfolding prepare_for_decoding set_bytes number_buffer
wrapped = refl
