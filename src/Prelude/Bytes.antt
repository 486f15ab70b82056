-- ===== src/Prelude/Bytes.antt =====
-- Bytes: shifted fields put together by `|`, and facts about every byte by evaluation.
use Prim.Native.Nat.{
  ℕ, zero, suc, ◌+◌, ◌-◌, ◌*◌, ◌/◌, ◌%◌, ◌≤◌, ◌<◌, ◌^◌, max, min, bit_or, bit_and,
}
use mathlib.Core.Path.{◌≡◌, refl, ◌∙◌, ap}
use mathlib.Core.Bool.{Bool, true, ◌&&◌}
use native.Mathlib.Omega.{arith}
use native.Mathlib.Nat.{pow-suc, one-le-pow}
use rumble.Prelude.Bits.{or_step, and_step}

abbrev pub all_below : ℕ → (ℕ → Bool) → Bool
all_below zero p = true
all_below (suc n) p = p n && all_below n p

pub all_below_sound : (n : ℕ) (p : ℕ → Bool) (x : ℕ) → all_below n p ≡ true → x < n → p x ≡ true
all_below_sound zero p x h lt = absurd (omega arith)
all_below_sound (suc n) p x h lt = ground (arith, all_below_sound n p x)

or_zero_fuel : (n a : ℕ) → a ≤ n → bit_or a 0 ≡ a
or_zero_fuel n zero h = refl
or_zero_fuel zero (suc a) h = absurd (omega arith)
or_zero_fuel (suc n) (suc a) h =
    omega (arith, or_step (suc a) 0, or_zero_fuel n (suc a / 2) (omega arith))

double : (a m : ℕ) → a * (m * 2) ≡ 2 * (a * m)
double a m = grind arith

-- `a << k | b` is a sum where `b` has `k` bits.
pub or_add : (k a b : ℕ) → b < 2 ^ k → bit_or (a * 2 ^ k) b ≡ a * 2 ^ k + b
or_add zero a zero h = omega (arith, or_zero_fuel (a * 1) (a * 1) (omega arith))
or_add zero a (suc b) h = absurd (omega arith)
or_add (suc k) a b h =
    let e : a * 2 ^ suc k ≡ 2 * (a * 2 ^ k) = ap (λ t. a * t) (pow-suc 2 k) ∙ double a (2 ^ k) in
    let halves : bit_or (2 * (a * 2 ^ k)) b ≡ bit_or (a * 2 ^ k) (b / 2) * 2 + b % 2 =
      or_step (2 * (a * 2 ^ k)) b
      ∙ ap (λ t. bit_or t (b / 2) * 2 + max ((2 * (a * 2 ^ k)) % 2) (b % 2))
          (let half : (2 * (a * 2 ^ k)) / 2 ≡ a * 2 ^ k = omega arith in half)
      ∙ omega arith in
    rw e (omega (arith, halves, pow-suc 2 k, or_add k a (b / 2) (omega (arith, pow-suc 2 k))))

pub or_sum : (k acc a b : ℕ) → acc ≡ a * 2 ^ k → b < 2 ^ k → bit_or acc b ≡ acc + b
or_sum k acc a b e h = rw e (or_add k a b h)

zero-or_fuel : (n b : ℕ) → b ≤ n → bit_or 0 b ≡ b
zero-or_fuel n zero h = refl
zero-or_fuel zero (suc b) h = absurd (omega arith)
zero-or_fuel (suc n) (suc b) h =
    omega (arith, or_step 0 (suc b), zero-or_fuel n (suc b / 2) (omega arith))

-- A bit above a number.
pub or_top : (k b : ℕ) → b < 2 ^ k → bit_or b (2 ^ k) ≡ b + 2 ^ k
or_top zero zero h = refl
or_top zero (suc b) h = absurd (omega arith)
or_top (suc k) b h =
    let halves : bit_or b (2 * 2 ^ k) ≡ bit_or (b / 2) (2 ^ k) * 2 + b % 2 =
      or_step b (2 * 2 ^ k)
      ∙ ap (λ t. bit_or (b / 2) t * 2 + max (b % 2) ((2 * 2 ^ k) % 2))
          (let half : (2 * 2 ^ k) / 2 ≡ 2 ^ k = omega arith in half)
      ∙ omega arith in
    let e : 2 ^ suc k ≡ 2 * 2 ^ k = omega (arith, pow-suc 2 k) in
    rw e (omega (arith, halves, or_top k (b / 2) (omega (arith, pow-suc 2 k))))

and-zero_fuel : (n a : ℕ) → a ≤ n → bit_and a 0 ≡ 0
and-zero_fuel n zero h = refl
and-zero_fuel zero (suc a) h = absurd (omega arith)
and-zero_fuel (suc n) (suc a) h =
    omega (arith, and_step (suc a) 0, and-zero_fuel n (suc a / 2) (omega arith))

-- The low bits of a number below its top bit.
pub and_low : (k b : ℕ) (t : ℕ) → b < 2 ^ k → bit_and (b + t * 2 ^ k) (2 ^ k - 1) ≡ b
and_low zero zero t h = and-zero_fuel (0 + t * 1) (0 + t * 1) (omega arith)
and_low zero (suc b) t h = absurd (omega arith)
and_low (suc k) b t h =
    let e : b + t * 2 ^ suc k ≡ b + 2 * (t * 2 ^ k) =
      ap (λ x. b + x) (ap (λ x. t * x) (pow-suc 2 k) ∙ double t (2 ^ k)) in
    let mask : (2 ^ suc k - 1) / 2 ≡ 2 ^ k - 1 = omega (arith, pow-suc 2 k, one-le-pow k 2) in
    let odd : (2 ^ suc k - 1) % 2 ≡ 1 = omega (arith, pow-suc 2 k, one-le-pow k 2) in
    let half : (b + 2 * (t * 2 ^ k)) / 2 ≡ b / 2 + t * 2 ^ k = omega arith in
    rw e (
      and_step (b + 2 * (t * 2 ^ k)) (2 ^ suc k - 1)
      ∙ ap
          (λ x.
            bit_and x ((2 ^ suc k - 1) / 2) * 2
            + min ((b + 2 * (t * 2 ^ k)) % 2) ((2 ^ suc k - 1) % 2))
          half
      ∙ ap
          (λ x.
            bit_and (b / 2 + t * 2 ^ k) x * 2
            + min ((b + 2 * (t * 2 ^ k)) % 2) ((2 ^ suc k - 1) % 2))
          mask
      ∙ omega (arith, odd, and_low k (b / 2) t (omega (arith, pow-suc 2 k))))

-- The top bit of a number.
pub and_top : (k b t : ℕ) → b < 2 ^ k → t < 2 → bit_and (b + t * 2 ^ k) (2 ^ k) ≡ t * 2 ^ k
and_top zero zero zero h l = refl
and_top zero zero (suc zero) h l = refl
and_top zero zero (suc (suc t)) h l = absurd (omega arith)
and_top zero (suc b) t h l = absurd (omega arith)
and_top (suc k) b t h l =
    let e : t * 2 ^ suc k ≡ 2 * (t * 2 ^ k) = ap (λ x. t * x) (pow-suc 2 k) ∙ double t (2 ^ k) in
    let mask : 2 ^ suc k / 2 ≡ 2 ^ k = omega (arith, pow-suc 2 k) in
    let even : 2 ^ suc k % 2 ≡ 0 = omega (arith, pow-suc 2 k) in
    let half : (b + 2 * (t * 2 ^ k)) / 2 ≡ b / 2 + t * 2 ^ k = omega arith in
    rw e (
      and_step (b + 2 * (t * 2 ^ k)) (2 ^ suc k)
      ∙ ap (λ x. bit_and x (2 ^ suc k / 2) * 2 + min ((b + 2 * (t * 2 ^ k)) % 2) (2 ^ suc k % 2))
          half
      ∙ ap
          (λ x. bit_and (b / 2 + t * 2 ^ k) x * 2 + min ((b + 2 * (t * 2 ^ k)) % 2) (2 ^ suc k % 2))
          mask
      ∙ omega (arith, even, and_top k (b / 2) t (omega (arith, pow-suc 2 k)) l))
