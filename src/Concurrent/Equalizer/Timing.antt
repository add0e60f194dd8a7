-- ===== src/Concurrent/Equalizer/Timing.antt =====
-- How often `get` and `release` of `single_pool_multi_thread_equalizer` in src/Concurrent.hpp sort the pools.
use icon.Prelude.{ℕ, ◌%◌, ◌≡◌, ◌==◌, arith}
use icon.Prelude.Bits.{bit_and_one}
use icon.Concurrent.Equalizer.{is_time_to_sort}

-- `get` and `release` sort the pools in every second call: exactly where their count of calls is odd.
pub is_time_to_sort-odd : (count : ℕ) → is_time_to_sort count ≡ (count % 2 == 1)
unfolding is_time_to_sort
is_time_to_sort-odd count = ground (arith, bit_and_one count)
