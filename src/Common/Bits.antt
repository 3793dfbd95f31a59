-- ===== src/Common/Bits.antt =====
-- The bit operations at variables: one binary digit at a time, and by fields of k digits.
use Prim.Native.Nat.{
  ℕ, zero, suc, ◌+◌, ◌-◌, ◌*◌, ◌/◌, ◌%◌, ◌^◌, ◌≤◌, ◌<◌, min, max, bit_and, bit_or, digits,
  bit_and-bitwise, bit_or-bitwise,
}
use mathlib.Core.Path.{◌≡◌, refl}
use mathlib.Core.Bool.{Bool, true, false}
use native.Mathlib.Omega.{arith}
use native.Mathlib.Nat.{pow-suc}
use doggy_dns.Common.Tests.{if◌then◌else◌}

module _ (z : ℕ → ℕ) (f : ℕ → ℕ → ℕ) where
  -- Any fuel that covers the first operand gives the same digits.
  enough_fuel : (n m a b : ℕ) → a ≤ n → a ≤ m → digits z f n a b ≡ digits z f m a b
  enough_fuel zero zero a b p q = refl
  enough_fuel zero (suc m) zero b p q = refl
  enough_fuel (suc n) zero zero b p q = refl
  enough_fuel (suc n) (suc m) zero b p q = refl
  enough_fuel zero (suc m) (suc a) b p q = absurd (omega arith)
  enough_fuel (suc n) zero (suc a) b p q = absurd (omega arith)
  enough_fuel (suc n) (suc m) (suc a) b p q =
      omega (arith, enough_fuel n m (suc a / 2) (b / 2) (omega arith) (omega arith))

  -- The lowest digit of an operation, and the rest.
  digits-half :
      (a b : ℕ)
      → 0 < a
      → digits z f a a b ≡ digits z f (a / 2) (a / 2) (b / 2) * 2 + f (a % 2) (b % 2)
  digits-half zero b h = absurd (omega arith)
  digits-half (suc a) b h =
      omega (arith, enough_fuel a (suc a / 2) (suc a / 2) (b / 2) (omega arith) (omega arith))

pub and_half : (a b : ℕ) → bit_and a b ≡ bit_and (a / 2) (b / 2) * 2 + min (a % 2) (b % 2)
and_half zero b = omega (arith, bit_and-bitwise 0 b, bit_and-bitwise 0 (b / 2))
and_half (suc a) b = omega (
  arith,
  bit_and-bitwise (suc a) b,
  bit_and-bitwise (suc a / 2) (b / 2),
  digits-half (λ b. zero) min (suc a) b (omega arith),
)

pub or_half : (a b : ℕ) → bit_or a b ≡ bit_or (a / 2) (b / 2) * 2 + max (a % 2) (b % 2)
or_half zero b = omega (arith, bit_or-bitwise 0 b, bit_or-bitwise 0 (b / 2))
or_half (suc a) b = omega (
  arith,
  bit_or-bitwise (suc a) b,
  bit_or-bitwise (suc a / 2) (b / 2),
  digits-half (λ b. b) max (suc a) b (omega arith),
)

-- What halving does to a number whose high part starts at digit k + 1.
halve : (k b w : ℕ) → (b + 2 ^ suc k * w) / 2 ≡ b / 2 + 2 ^ k * w
halve k b w = rw (pow-suc 2 k) (omega arith)

odd : (k b w : ℕ) → (b + 2 ^ suc k * w) % 2 ≡ b % 2
odd k b w = rw (pow-suc 2 k) (omega arith)

module _ (op : ℕ → ℕ → ℕ) (f : ℕ → ℕ → ℕ) (op_zero : op 0 0 ≡ 0)
    (op_half : (a b : ℕ) → op a b ≡ op (a / 2) (b / 2) * 2 + f (a % 2) (b % 2)) where
  -- An operation that works digit by digit treats fields of k digits apart.
  op_fields :
      (k b c w v : ℕ)
      → b < 2 ^ k
      → c < 2 ^ k
      → op (b + 2 ^ k * w) (c + 2 ^ k * v) ≡ op b c + 2 ^ k * op w v
  op_fields zero b c w v p q =
      let lone : b + 1 * w ≡ w = omega arith in
      let low : c + 1 * v ≡ v = omega arith in
      let b_zero : b ≡ 0 = omega arith in
      let c_zero : c ≡ 0 = omega arith in rw (lone, low, b_zero, c_zero, op_zero) (omega arith)
  op_fields (suc k) b c w v p q =
      rw
        (
          op_half (b + 2 ^ suc k * w) (c + 2 ^ suc k * v),
          halve k b w,
          halve k c v,
          odd k b w,
          odd k c v,
          op_fields k (b / 2) (c / 2) w v (omega (arith, pow-suc 2 k)) (omega (arith, pow-suc 2 k)),
          op_half b c,
          pow-suc 2 k,
        )
        (omega arith)

pub and_byte :
    (b c w v : ℕ)
    → b < 256
    → c < 256
    → bit_and (b + 256 * w) (c + 256 * v) ≡ bit_and b c + 256 * bit_and w v
and_byte b c w v p q = op_fields bit_and min refl and_half 8 b c w v p q

pub or_byte :
    (b c w v : ℕ)
    → b < 256
    → c < 256
    → bit_or (b + 256 * w) (c + 256 * v) ≡ bit_or b c + 256 * bit_or w v
or_byte b c w v p q = op_fields bit_or max refl or_half 8 b c w v p q

-- A low mask of k ones keeps the k lowest digits.
pub and_complement : (k a : ℕ) → a < 2 ^ k → bit_and a (2 ^ k - 1 - a) ≡ 0
and_complement zero a h = let none_left : a ≡ 0 = omega arith in rw none_left
and_complement (suc k) a h =
    ground (arith, and_half a (2 ^ suc k - 1 - a), pow-suc 2 k, and_complement k (a / 2))

pub and-zero : (k a : ℕ) → a < 2 ^ k → bit_and a 0 ≡ 0
and-zero zero a h = let none_left : a ≡ 0 = omega arith in rw none_left
and-zero (suc k) a h =
    omega (arith, and_half a 0, pow-suc 2 k, and-zero k (a / 2) (omega (arith, pow-suc 2 k)))

or-zero_fuel : (n a : ℕ) → a ≤ n → bit_or a 0 ≡ a
or-zero_fuel n zero h = refl
or-zero_fuel zero (suc a) h = absurd (omega arith)
or-zero_fuel (suc n) (suc a) h =
    omega (arith, or_half (suc a) 0, or-zero_fuel n (suc a / 2) (omega arith))

pub or-zero : (a : ℕ) → bit_or a 0 ≡ a
or-zero a = or-zero_fuel a a (omega arith)

pub zero-or : (b : ℕ) → bit_or 0 b ≡ b
zero-or b = bit_or-bitwise 0 b

-- A mask never adds digits.
and-le_fuel : (n a b : ℕ) → a ≤ n → bit_and a b ≤ b
and-le_fuel n zero b h = omega (arith, bit_and-bitwise 0 b)
and-le_fuel zero (suc a) b h = absurd (omega arith)
and-le_fuel (suc n) (suc a) b h =
    omega (arith, and_half (suc a) b, and-le_fuel n (suc a / 2) (b / 2) (omega arith))

pub and-le : (a b : ℕ) → bit_and a b ≤ b
and-le a b = and-le_fuel a a b (omega arith)

module _ (p : ℕ → Bool) where
  -- A test of every number below a bound, by evaluation.
  unfoldable pub all_below : ℕ → Bool
  all_below zero = true
  all_below (suc n) = if p n then all_below n else false

  pub all_below_sound : (n x : ℕ) → all_below n ≡ true → x < n → p x ≡ true
  unfolding all_below
  all_below_sound zero x h lt = absurd (omega arith)
  all_below_sound (suc n) x h lt = ground (arith, all_below_sound n x)

and-one : (a : ℕ) → bit_and a 1 ≡ a % 2
and-one a = omega (arith, and_half a 1, and-le (a / 2) 0)

-- x & 0x0F
pub and-fifteen : (a : ℕ) → bit_and a 15 ≡ a % 16
and-fifteen a =
    omega
      (arith, and_half a 15, and_half (a / 2) 7, and_half (a / 2 / 2) 3, and-one (a / 2 / 2 / 2))
