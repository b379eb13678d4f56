-- ===== src/Base/Bits.antt =====
-- Facts on bits: the digit recursion of the native `bit_or` and `bit_and`, the value of one bit, and
-- checks of a range by evaluation.
use Prim.Native.Nat.{
  ℕ, zero, suc, ◌+◌, ◌*◌, ◌/◌, ◌%◌, ◌^◌, ◌≤◌, ◌<◌, min, max, bit_and, bit_or, digits, bitwise,
  bit_and-bitwise, bit_or-bitwise,
}
use mathlib.Core.Path.{◌≡◌, refl, ap, sym, ◌∙◌}
use mathlib.Core.Bool.{Bool, true, false, ◌&&◌, ◌||◌}
use native.Mathlib.Nat.{pow-suc, one-le-pow, le_refl, div-div-eq-div-mul}
use native.Mathlib.Omega.{arith}
use libktorrent_stream.Base.Tests.{◌==◌, if◌then◌else◌}

-- The test holds at every number below the bound.
unfoldable pub all_below : (bound : ℕ) (test : ℕ → Bool) → Bool
all_below zero test = true
all_below (suc last) test = test last && all_below last test

pub all_below_sound :
    (bound : ℕ) (test : ℕ → Bool) (i : ℕ) → all_below bound test ≡ true → i < bound → test i ≡ true
unfolding all_below
all_below_sound zero test i all below = absurd (omega arith)
all_below_sound (suc last) test i all below = ground (arith, all_below_sound last test i)

module _ (z : ℕ → ℕ) (op : ℕ → ℕ → ℕ) where
  -- The fuel of the digit recursion does not matter once it covers the first number.
  fuel_free :
      (fuel fuel' x y : ℕ) → x ≤ fuel → x ≤ fuel' → digits z op fuel x y ≡ digits z op fuel' x y
  fuel_free zero zero x y h h' = refl
  fuel_free zero (suc k) zero y h h' = refl
  fuel_free (suc k) zero zero y h h' = refl
  fuel_free (suc k) (suc l) zero y h h' = refl
  fuel_free zero (suc k) (suc x) y h h' = absurd (omega arith)
  fuel_free (suc k) zero (suc x) y h h' = absurd (omega arith)
  fuel_free (suc k) (suc l) (suc x) y h h' =
      rw (fuel_free k l (suc x / 2) (y / 2) (omega arith) (omega arith))

  lowest_digit :
      (x y : ℕ)
      → bitwise z op (suc x) y ≡ bitwise z op (suc x / 2) (y / 2) * 2 + op (suc x % 2) (y % 2)
  lowest_digit x y =
      omega (arith, fuel_free x (suc x / 2) (suc x / 2) (y / 2) (omega arith) (le_refl _))

pub or_step : (a b : ℕ) → bit_or a b ≡ bit_or (a / 2) (b / 2) * 2 + max (a % 2) (b % 2)
or_step zero b = simp bit_or-bitwise (omega arith)
or_step (suc a) b = simp bit_or-bitwise (lowest_digit (λ y. y) max a b)

pub and_step : (a b : ℕ) → bit_and a b ≡ bit_and (a / 2) (b / 2) * 2 + min (a % 2) (b % 2)
and_step zero b = simp bit_and-bitwise (omega arith)
and_step (suc a) b = simp bit_and-bitwise (lowest_digit (λ y. 0) min a b)

-- Bit `k` of a number, bit 0 the lowest.
abbrev pub test_bit : ℕ → ℕ → Bool
test_bit a zero = a % 2 == 1
test_bit a (suc k) = test_bit (a / 2) k

half-or : (a b : ℕ) → bit_or a b / 2 ≡ bit_or (a / 2) (b / 2)
half-or a b = omega (arith, or_step a b)

half-and : (a b : ℕ) → bit_and a b / 2 ≡ bit_and (a / 2) (b / 2)
half-and a b = omega (arith, and_step a b)

pub test_bit-or : (k a b : ℕ) → test_bit (bit_or a b) k ≡ (test_bit a k || test_bit b k)
test_bit-or zero a b = ground (arith, or_step a b)
test_bit-or (suc k) a b = rw half-or (test_bit-or k (a / 2) (b / 2))

pub test_bit-and : (k a b : ℕ) → test_bit (bit_and a b) k ≡ (test_bit a k && test_bit b k)
test_bit-and zero a b = ground (arith, and_step a b)
test_bit-and (suc k) a b = rw half-and (test_bit-and k (a / 2) (b / 2))

and-zero_fuel : (n a : ℕ) → a ≤ n → bit_and a 0 ≡ 0
and-zero_fuel n zero h = refl
and-zero_fuel zero (suc a) h = absurd (omega arith)
and-zero_fuel (suc n) (suc a) h =
    omega (arith, and_step (suc a) 0, and-zero_fuel n (suc a / 2) (omega arith))

and-zero : (a : ℕ) → bit_and a 0 ≡ 0
and-zero a = and-zero_fuel a a (omega arith)

-- A mask of one bit picks that bit.
pub and-mask : (k a : ℕ) → bit_and a (2 ^ k) ≡ (if test_bit a k then 2 ^ k else 0)
and-mask zero a = ground (arith, and_step a 1, and-zero (a / 2))
and-mask (suc k) a = ground (arith, and_step a (2 ^ suc k), pow-suc 2 k, and-mask k (a / 2))

pub and-mask_ne : (k a : ℕ) → (if bit_and a (2 ^ k) == 0 then false else true) ≡ test_bit a k
and-mask_ne k a = ground (arith, and-mask k a, one-le-pow k 2)

pub test_bit-zero : (k : ℕ) → test_bit 0 k ≡ false
test_bit-zero zero = refl
test_bit-zero (suc k) = test_bit-zero k

pub test_bit-pow : (k j : ℕ) → test_bit (2 ^ k) j ≡ (j == k)
test_bit-pow zero zero = refl
test_bit-pow zero (suc j) = ground (arith, test_bit-zero j)
test_bit-pow (suc k) zero = ground (arith, pow-suc 2 k)
test_bit-pow (suc k) (suc j) = rw half-pow (ground (arith, test_bit-pow k j))
  where
    half-pow : 2 ^ suc k / 2 ≡ 2 ^ k
    half-pow = omega (arith, pow-suc 2 k)

-- A disjunction needs no more bits than its parts.
pub or-lt : (k a b : ℕ) → a < 2 ^ k → b < 2 ^ k → bit_or a b < 2 ^ k
or-lt zero zero zero p q = omega arith
or-lt zero zero (suc b) p q = absurd (omega arith)
or-lt zero (suc a) b p q = absurd (omega arith)
or-lt (suc k) a b p q = omega (
  arith,
  or_step a b,
  pow-suc 2 k,
  or-lt k (a / 2) (b / 2) (omega (arith, pow-suc 2 k)) (omega (arith, pow-suc 2 k)),
)

pub and-le_fuel : (n a b : ℕ) → a ≤ n → bit_and a b ≤ a
and-le_fuel n zero b h = simp bit_and-bitwise (omega arith)
and-le_fuel zero (suc a) b h = absurd (omega arith)
and-le_fuel (suc n) (suc a) b h =
    omega (arith, and_step (suc a) b, and-le_fuel n (suc a / 2) (b / 2) (omega arith))

pub and-le : (a b : ℕ) → bit_and a b ≤ a
and-le a b = and-le_fuel a a b (le_refl a)

or-zero_fuel : (n a : ℕ) → a ≤ n → bit_or a 0 ≡ a
or-zero_fuel n zero h = refl
or-zero_fuel zero (suc a) h = absurd (omega arith)
or-zero_fuel (suc n) (suc a) h =
    omega (arith, or_step (suc a) 0, or-zero_fuel n (suc a / 2) (omega arith))

double_shift : (q k : ℕ) → q * 2 ^ suc k ≡ q * 2 ^ k + q * 2 ^ k
double_shift q k = omega (arith, ap (λ (t : ℕ). q * t) (pow-suc 2 k))

-- A number shifted past another one is joined to it by a sum.
pub or-shifted : (k q r : ℕ) → r < 2 ^ k → bit_or (q * 2 ^ k) r ≡ q * 2 ^ k + r
or-shifted zero q r h = ground (arith, or-zero_fuel q q (le_refl q))
or-shifted (suc k) q r h =
    ground (arith, or_step (q * 2 ^ suc k) r, double_shift q k, pow-suc 2 k, or-shifted k q (r / 2))

-- A shifted mask picks bits of the shifted number.
pub and-shifted : (k x m : ℕ) → bit_and x (m * 2 ^ k) ≡ bit_and (x / 2 ^ k) m * 2 ^ k
and-shifted zero x m = ground arith
and-shifted (suc k) x m = ground (
  arith,
  and_step x (m * 2 ^ suc k),
  double_shift m k,
  double_shift (bit_and (x / 2 ^ suc k) m) k,
  and-shifted k (x / 2) m,
  half_shift,
)
  where
    half_shift : x / 2 ^ suc k ≡ x / 2 / 2 ^ k
    half_shift =
        ap (λ (t : ℕ). x / t) (omega (arith, pow-suc 2 k)) ∙ sym (div-div-eq-div-mul x 2 (2 ^ k))

and_odd : (x m : ℕ) → bit_and x (m + m + 1) ≡ bit_and (x / 2) m * 2 + x % 2
and_odd x m = ground (arith, and_step x (m + m + 1), halve)
  where
    halve : (m + m + 1) / 2 ≡ m
    halve = omega arith

pub and-byte : (x : ℕ) → bit_and x 255 ≡ x % 256
and-byte x = omega (
  arith,
  and_odd x 127,
  and_odd (x / 2) 63,
  and_odd (x / 2 / 2) 31,
  and_odd (x / 2 / 2 / 2) 15,
  and_odd (x / 2 / 2 / 2 / 2) 7,
  and_odd (x / 2 / 2 / 2 / 2 / 2) 3,
  and_odd (x / 2 / 2 / 2 / 2 / 2 / 2) 1,
  and_odd (x / 2 / 2 / 2 / 2 / 2 / 2 / 2) 0,
  and-zero (x / 2 / 2 / 2 / 2 / 2 / 2 / 2 / 2),
)
