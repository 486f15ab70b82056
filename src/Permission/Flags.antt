-- ===== src/Permission/Flags.antt =====
-- The flag operations on the bits of a native number: an instance of what
-- crates/rumble-protocol/src/permissions.rs takes from the `bitflags` macro, for evaluating the
-- model and for the examples.
use Prim.Native.Nat.{bit_and, bit_or, bit_xor}
use rumble.Prelude.{ℕ, ◌≡◌, ap, Bool, true, ◌&&◌, not, arith, ◌==◌, ==_iff, Bool-cases, inl, inr}
use rumble.Prelude.Bits.{has, has-and, has-or, has-xor, has_ext}
use rumble.Permission.{BitFlags, declared}

abbrev pub masked_not : ℕ → ℕ
masked_not a = bit_xor declared (bit_and declared a)

pub has-masked_not : (a k : ℕ) → has (masked_not a) k ≡ (has declared k && not (has a k))
has-masked_not a k = ground (arith, has-xor declared (bit_and declared a) k, has-and declared a k)

abbrev pub includes : ℕ → ℕ → Bool
includes a b = bit_and a b == b

pub includes_sound : (a b k : ℕ) → includes a b ≡ true → has b k ≡ true → has a k ≡ true
includes_sound a b k h t =
    let e : bit_and a b ≡ b = (==_iff _ _).0 h in ground (arith, has-and a b k, ap (λ x. has x k) e)

pub includes_complete :
    (a b : ℕ) → ((k : ℕ) → has b k ≡ true → has a k ≡ true) → includes a b ≡ true
includes_complete a b h = (==_iff _ _).1 (
    has_ext (bit_and a b) b (λ k. elim (Bool-cases (has b k)) [
      | inl set ↦ ground (arith, has-and a b k, h k set)
      | inr unset ↦ ground (arith, has-and a b k)
    ]))

instance unfoldable pub native_flags : BitFlags
native_flags = record {
  union = bit_or;
  intersection = bit_and;
  complement = masked_not;
  from_bits_truncate = bit_and declared;
  contains = includes;
  has-union = has-or;
  has-intersection = has-and;
  has-complement = has-masked_not;
  has-from_bits_truncate = λ a k. has-and declared a k;
  contains_sound = includes_sound;
  contains_complete = includes_complete;
}
