-- ===== src/Prelude/Bits.antt =====
-- The binary digits of a number: what the native bit operations do to each digit.
use Prim.Native.Nat.{
  ℕ, zero, suc, ◌+◌, ◌*◌, ◌/◌, ◌%◌, ◌≤◌, ◌<◌, ◌^◌, ◌-◌, min, max, bit_and, bit_or, bit_xor,
  bit_xor-bitwise, differ, digits, bitwise, bit_and-bitwise, bit_or-bitwise,
}
use mathlib.Core.Path.{◌≡◌, refl, ◌∙◌, ap}
use mathlib.Core.Bool.{Bool, true, false, not, ◌&&◌, ◌||◌}
use native.Mathlib.Omega.{arith}
use native.Mathlib.Nat.{le_refl, pow-suc, one-le-pow}
use rumble.Prelude.Tests.{◌==◌}

-- The fuel of the native recursion may be any bound of the first number.
module _ (z : ℕ → ℕ) (f : ℕ → ℕ → ℕ) where
  digits_enough : (n m a b : ℕ) → a ≤ n → a ≤ m → digits z f n a b ≡ digits z f m a b
  digits_enough zero zero a b p q = refl
  digits_enough zero (suc m) zero b p q = refl
  digits_enough zero (suc m) (suc a) b p q = absurd (omega arith)
  digits_enough (suc n) zero zero b p q = refl
  digits_enough (suc n) zero (suc a) b p q = absurd (omega arith)
  digits_enough (suc n) (suc m) zero b p q = refl
  digits_enough (suc n) (suc m) (suc a) b p q =
      rw (digits_enough n m (suc a / 2) (b / 2) (omega arith) (omega arith))

  bitwise_step :
      (a b : ℕ)
      → bitwise z f (suc a) b ≡ bitwise z f (suc a / 2) (b / 2) * 2 + f (suc a % 2) (b % 2)
  bitwise_step a b =
      omega (arith, digits_enough a (suc a / 2) (suc a / 2) (b / 2) (omega arith) (le_refl _))

pub or_step : (a b : ℕ) → bit_or a b ≡ bit_or (a / 2) (b / 2) * 2 + max (a % 2) (b % 2)
or_step zero b = simp bit_or-bitwise (omega arith)
or_step (suc a) b = simp bit_or-bitwise (bitwise_step (λ y. y) max a b)

pub and_step : (a b : ℕ) → bit_and a b ≡ bit_and (a / 2) (b / 2) * 2 + min (a % 2) (b % 2)
and_step zero b = simp bit_and-bitwise (omega arith)
and_step (suc a) b = simp bit_and-bitwise (bitwise_step (λ y. 0) min a b)

-- Digit `k` of a number.
abbrev pub has : ℕ → ℕ → Bool
has n zero = n % 2 == 1
has n (suc k) = has (n / 2) k

pub has-zero : (k : ℕ) → has 0 k ≡ false
has-zero zero = refl
has-zero (suc k) = has-zero k

pub has-or : (a b k : ℕ) → has (bit_or a b) k ≡ (has a k || has b k)
has-or a b zero = ground (arith, or_step a b)
has-or a b (suc k) =
    ap (λ t. has t k)
      (let e : bit_or a b / 2 ≡ bit_or (a / 2) (b / 2) = omega (arith, or_step a b) in e)
    ∙ has-or (a / 2) (b / 2) k

pub has-and : (a b k : ℕ) → has (bit_and a b) k ≡ (has a k && has b k)
has-and a b zero = ground (arith, and_step a b)
has-and a b (suc k) =
    ap (λ t. has t k)
      (let e : bit_and a b / 2 ≡ bit_and (a / 2) (b / 2) = omega (arith, and_step a b) in e)
    ∙ has-and (a / 2) (b / 2) k

xor_step : (a b : ℕ) → bit_xor a b ≡ bit_xor (a / 2) (b / 2) * 2 + differ (a % 2) (b % 2)
xor_step zero b = simp bit_xor-bitwise (omega arith)
xor_step (suc a) b = simp bit_xor-bitwise (bitwise_step (λ y. y) differ a b)

abbrev pub unlike : Bool → Bool → Bool
unlike true b = not b
unlike false b = b

differ_digits :
    (x y : ℕ) → x < 2 → y < 2 → (differ x y < 2) × ((differ x y == 1) ≡ unlike (x == 1) (y == 1))
differ_digits zero y p q = (q, ground arith)
differ_digits (suc zero) zero p q = (omega arith, ground arith)
differ_digits (suc zero) (suc zero) p q = (omega arith, ground arith)
differ_digits (suc zero) (suc (suc y)) p q = absurd (omega arith)
differ_digits (suc (suc x)) y p q = absurd (omega arith)

pub has-xor : (a b k : ℕ) → has (bit_xor a b) k ≡ unlike (has a k) (has b k)
has-xor a b zero =
    ground (arith, xor_step a b, differ_digits (a % 2) (b % 2) (omega arith) (omega arith))
has-xor a b (suc k) =
    ap (λ t. has t k)
      (let e : bit_xor a b / 2 ≡ bit_xor (a / 2) (b / 2) =
          omega (arith, xor_step a b, differ_digits (a % 2) (b % 2) (omega arith) (omega arith)) in
        e)
    ∙ has-xor (a / 2) (b / 2) k

-- Numbers with the same digits are equal.
has_ext_fuel : (n a b : ℕ) → a ≤ n → b ≤ n → ((k : ℕ) → has a k ≡ has b k) → a ≡ b
has_ext_fuel zero a b p q h = omega arith
has_ext_fuel (suc n) a b p q h =
    ground (arith, h 0, has_ext_fuel n (a / 2) (b / 2) (omega arith) (omega arith) (λ k. h (suc k)))

pub has_ext : (a b : ℕ) → ((k : ℕ) → has a k ≡ has b k) → a ≡ b
has_ext a b h = has_ext_fuel (a + b) a b (omega arith) (omega arith) h

-- All low digits of 2 ^ n - 1 are set.
pub has-ones : (n k : ℕ) → k < n → has (2 ^ n - 1) k ≡ true
has-ones zero k h = absurd (omega arith)
has-ones (suc n) zero h = ground (arith, pow-suc 2 n, one-le-pow n 2)
has-ones (suc n) (suc k) h =
    ap (λ t. has t k)
      (let e : (2 ^ suc n - 1) / 2 ≡ 2 ^ n - 1 = omega (arith, pow-suc 2 n, one-le-pow n 2) in e)
    ∙ has-ones n k (omega arith)
