-- ===== src/Prelude/Bits.antt =====
-- `&`, `|` and `<<` of the machine words, and what they are in arithmetic.
use Prim.Native.Nat.{
  ℕ, zero, suc, ◌+◌, ◌*◌, ◌/◌, ◌%◌, ◌^◌, ◌≤◌, ◌<◌, min, max, digits, bit_and, bit_or,
  bit_and-bitwise, bit_or-bitwise,
}
use mathlib.Core.Path.{◌≡◌, refl, ap}
use native.Mathlib.Omega.{arith}

-- `x << k` on a word of `w` bits.
abbrev pub shl : ℕ → ℕ → ℕ → ℕ
shl w x k = (x * 2 ^ k) % 2 ^ w

-- The count of digits does not matter once the number has run out.
module _ (z : ℕ → ℕ) (op : ℕ → ℕ → ℕ) where
  enough : (n m a b : ℕ) → a ≤ n → a ≤ m → digits z op n a b ≡ digits z op m a b
  enough n m zero b low high = empty n m b
    where
      empty : (n m b : ℕ) → digits z op n 0 b ≡ digits z op m 0 b
      empty zero zero b = refl
      empty zero (suc m) b = refl
      empty (suc n) zero b = refl
      empty (suc n) (suc m) b = refl
  enough zero m (suc a) b low high = absurd (omega arith)
  enough (suc n) zero (suc a) b low high = absurd (omega arith)
  enough (suc n) (suc m) (suc a) b low high =
      omega (arith, enough n m (suc a / 2) (b / 2) (omega arith) (omega arith))

or_step : (a b : ℕ) → bit_or a b ≡ bit_or (a / 2) (b / 2) * 2 + max (a % 2) (b % 2)
or_step zero b = omega (arith, bit_or-bitwise 0 b, bit_or-bitwise 0 (b / 2))
or_step (suc a) b = omega (
  arith,
  bit_or-bitwise (suc a) b,
  bit_or-bitwise (suc a / 2) (b / 2),
  enough (λ y. y) max a (suc a / 2) (suc a / 2) (b / 2) (omega arith) (omega arith),
)

and_step : (a b : ℕ) → bit_and a b ≡ bit_and (a / 2) (b / 2) * 2 + min (a % 2) (b % 2)
and_step zero b = omega (arith, bit_and-bitwise 0 b, bit_and-bitwise 0 (b / 2))
and_step (suc a) b = omega (
  arith,
  bit_and-bitwise (suc a) b,
  bit_and-bitwise (suc a / 2) (b / 2),
  enough (λ y. zero) min a (suc a / 2) (suc a / 2) (b / 2) (omega arith) (omega arith),
)

and_zero : (a : ℕ) → bit_and 0 a ≡ 0
and_zero a = bit_and-bitwise 0 a

or_zero : (a : ℕ) → bit_or 0 a ≡ a
or_zero a = bit_or-bitwise 0 a

and_none : (k a : ℕ) → a ≤ k → bit_and a 0 ≡ 0
and_none k zero h = refl
and_none zero (suc a) h = absurd (omega arith)
and_none (suc k) (suc a) h = omega (arith, and_step (suc a) 0, and_none k (suc a / 2) (omega arith))

and_ones1 : (a : ℕ) → bit_and a 1 ≡ a % 2
and_ones1 a = omega (arith, and_step a 1, and_none (a / 2) (a / 2) (omega arith))

and_ones3 : (a : ℕ) → bit_and a 7 ≡ a % 8
and_ones3 a = omega (arith, and_step a 7, and_step (a / 2) 3, and_ones1 (a / 2 / 2))

and_ones5 : (a : ℕ) → bit_and a 31 ≡ a % 32
and_ones5 a = omega (arith, and_step a 31, and_step (a / 2) 15, and_ones3 (a / 2 / 2))

pub low_seven : (a : ℕ) → bit_and a 0x7f ≡ a % 128
low_seven a = omega (arith, and_step a 127, and_step (a / 2) 63, and_ones5 (a / 2 / 2))

and_eight : (a : ℕ) → bit_and a 8 ≡ a / 8 % 2 * 8
and_eight a =
    omega
      (arith, and_step a 8, and_step (a / 2) 4, and_step (a / 2 / 2) 2, and_ones1 (a / 2 / 2 / 2))

pub high_bit : (a : ℕ) → bit_and a 0x80 ≡ a / 128 % 2 * 128
high_bit a = omega (
  arith,
  and_step a 128,
  and_step (a / 2) 64,
  and_step (a / 2 / 2) 32,
  and_step (a / 2 / 2 / 2) 16,
  and_eight (a / 2 / 2 / 2 / 2),
)

mul_scale : (c q p : ℕ) → q * (c * p) ≡ c * (q * p)
mul_scale c zero p = omega arith
mul_scale c (suc q) p = grind (arith, mul_scale c q p)

-- A doubled power next to a factor.
pub scale_pow : (q k : ℕ) → q * 2 ^ suc k ≡ 2 * (q * 2 ^ k)
scale_pow q k = omega (arith, ap (λ (t : ℕ). q * t) (two_pow k), mul_scale 2 q (2 ^ k))
  where
    two_pow : (k : ℕ) → 2 ^ suc k ≡ 2 * 2 ^ k
    two_pow k = omega arith

-- `|` of disjoint fields is their sum.
pub or_fields : (k low high : ℕ) → low < 2 ^ k → bit_or low (high * 2 ^ k) ≡ high * 2 ^ k + low
or_fields zero low high h = ground (arith, or_zero high)
or_fields (suc k) low high h = ground (
  arith,
  or_step low (high * 2 ^ suc k),
  or_fields k (low / 2) high (omega arith),
  scale_pow high k,
)

pub set_high : (a : ℕ) → a < 128 → bit_or a 0x80 ≡ a + 128
set_high a h = omega (arith, or_fields 7 a 1 h)
