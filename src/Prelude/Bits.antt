-- ===== src/Prelude/Bits.antt =====
-- Masks on one byte as arithmetic, and `|` on numbers with no digit in common.
use Prim.Native.Nat.{
  ℕ, zero, suc, ◌+◌, ◌*◌, ◌/◌, ◌%◌, ◌^◌, ◌≤◌, ◌<◌, min, max, bit_and, bit_or, digits,
  bit_and-bitwise, bit_or-bitwise,
}
use mathlib.Core.Path.{◌≡◌, refl, ap}
use native.Mathlib.Nat.{pow-suc}
use native.Mathlib.Omega.{arith}

-- A digit-wise operation: `f` on two digits, and `z` once the first number has run out.
module _ (z : ℕ → ℕ) (f : ℕ → ℕ → ℕ) where
  -- The count of digits to go does not matter, if it is enough.
  fuelled : (a b n m : ℕ) → (a ≤ n) × (a ≤ m) → digits z f n a b ≡ digits z f m a b
  fuelled zero b zero zero h = refl
  fuelled zero b zero (suc m) h = refl
  fuelled zero b (suc n) zero h = refl
  fuelled zero b (suc n) (suc m) h = refl
  fuelled (suc a) b zero m h = absurd (omega arith)
  fuelled (suc a) b (suc n) zero h = absurd (omega arith)
  fuelled (suc a) b (suc n) (suc m) h =
      ap (λ (d : ℕ). d * 2 + f (suc a % 2) (b % 2))
        (fuelled (suc a / 2) (b / 2) n m (omega arith, omega arith))

  -- The lowest digit and the rest.
  halved :
      ((b : ℕ) → z b ≡ z (b / 2) * 2 + f 0 (b % 2))
      → (a b : ℕ) → digits z f a a b ≡ digits z f (a / 2) (a / 2) (b / 2) * 2 + f (a % 2) (b % 2)
  halved base zero b = base b
  halved base (suc a) b =
      ap (λ (d : ℕ). d * 2 + f (suc a % 2) (b % 2))
        (fuelled (suc a / 2) (b / 2) a (suc a / 2) (omega arith, omega arith))

and_halves : (a b : ℕ) → bit_and a b ≡ bit_and (a / 2) (b / 2) * 2 + min (a % 2) (b % 2)
and_halves a b = omega (
  arith,
  bit_and-bitwise a b,
  bit_and-bitwise (a / 2) (b / 2),
  halved (λ _. 0) min (λ b. omega arith) a b,
)

or_halves : (a b : ℕ) → bit_or a b ≡ bit_or (a / 2) (b / 2) * 2 + max (a % 2) (b % 2)
or_halves a b = omega (
  arith,
  bit_or-bitwise a b,
  bit_or-bitwise (a / 2) (b / 2),
  halved (λ y. y) max (λ b. omega arith) a b,
)

zero-bit_or : (b : ℕ) → bit_or 0 b ≡ b
zero-bit_or b = bit_or-bitwise 0 b

nothing_kept : (n a : ℕ) → a ≤ n → bit_and a 0 ≡ 0
nothing_kept zero a h = let e : a ≡ 0 = omega arith in ap (λ (x : ℕ). bit_and x 0) e
nothing_kept (suc n) zero h = refl
nothing_kept (suc n) (suc a) h =
    omega (arith, and_halves (suc a) 0, nothing_kept n (suc a / 2) (omega arith))

-- A mask of ones keeps the lowest digit and goes on with a shorter mask.
mask_longer : (a m : ℕ) → bit_and a (m * 2 + 1) ≡ bit_and (a / 2) m * 2 + a % 2
mask_longer a m =
    let e : (m * 2 + 1) / 2 ≡ m = omega arith in
    let h = and_halves a (m * 2 + 1) in omega (arith, rw e at h)

pub bit_and_one : (a : ℕ) → bit_and a 1 ≡ a % 2
bit_and_one a = omega (arith, mask_longer a 0, nothing_kept (a / 2) (a / 2) (omega arith))

three_ones : (a : ℕ) → bit_and a 7 ≡ a % 8
three_ones a = omega (
  arith,
  mask_longer a 3,
  mask_longer (a / 2) 1,
  mask_longer (a / 2 / 2) 0,
  nothing_kept (a / 2 / 2 / 2) (a / 2 / 2 / 2) (omega arith),
)

-- The mask of seven ones, at every width.
pub bit_and_mask : (a : ℕ) → bit_and a 127 ≡ a % 128
bit_and_mask a = omega (
  arith,
  mask_longer a 63,
  mask_longer (a / 2) 31,
  mask_longer (a / 2 / 2) 15,
  mask_longer (a / 2 / 2 / 2) 7,
  three_ones (a / 2 / 2 / 2 / 2),
)

pub bit_and-low : (x : ℕ) → x < 256 → bit_and x 0x7F ≡ x % 128
bit_and-low x h = bit_and_mask x

-- The top bit of a byte: seven digits of zeros below it.
mask_zero : (a m : ℕ) → bit_and a (m * 2) ≡ bit_and (a / 2) m * 2
mask_zero a m =
    let e : m * 2 / 2 ≡ m = omega arith in let h = and_halves a (m * 2) in omega (arith, rw e at h)

high_digits : (x : ℕ) → x < 16 → bit_and x 8 ≡ x / 8 * 8
high_digits x h = omega (
  arith,
  mask_zero x 4,
  mask_zero (x / 2) 2,
  mask_zero (x / 2 / 2) 1,
  mask_longer (x / 2 / 2 / 2) 0,
  nothing_kept (x / 2 / 2 / 2 / 2) (x / 2 / 2 / 2 / 2) (omega arith),
)

pub bit_and-top : (x : ℕ) → x < 256 → bit_and x 128 ≡ x / 128 * 128
bit_and-top x h = omega (
  arith,
  mask_zero x 64,
  mask_zero (x / 2) 32,
  mask_zero (x / 2 / 2) 16,
  mask_zero (x / 2 / 2 / 2) 8,
  high_digits (x / 2 / 2 / 2 / 2),
)

halve_lt : (a s : ℕ) → a < 2 ^ suc s → a / 2 < 2 ^ s
halve_lt a s h = omega (arith, rw (pow-suc 2 s) at h)

double : (g s : ℕ) → g * 2 ^ suc s ≡ 2 * (g * 2 ^ s)
double g s = grind arith

-- `|` of a number below `2 ^ s` with a multiple of `2 ^ s` adds them.
pub bit_or-disjoint : (s a g : ℕ) → a < 2 ^ s → bit_or a (g * 2 ^ s) ≡ a + g * 2 ^ s
bit_or-disjoint zero zero g h = omega (arith, zero-bit_or (g * 2 ^ 0))
bit_or-disjoint zero (suc a) g h = absurd (omega arith)
bit_or-disjoint (suc s) a g h =
    ground
      (arith, or_halves a (g * 2 ^ suc s), double g s, bit_or-disjoint s (a / 2) g (halve_lt a s h))

pub bit_or-top : (x : ℕ) → x < 128 → bit_or x 128 ≡ x + 128
bit_or-top x h = bit_or-disjoint 7 x 1 h
