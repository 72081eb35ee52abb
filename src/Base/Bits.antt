-- ===== src/Base/Bits.antt =====
-- `|` of disjoint fields and `&` with a mask, as arithmetic, at every width.
use Prim.Native.Nat.{
  ℕ, zero, suc, ◌+◌, ◌-◌, ◌*◌, ◌/◌, ◌%◌, ◌^◌, ◌≤◌, ◌<◌, min, max, digits, bit_and, bit_or,
  bit_and-bitwise, bit_or-bitwise,
}
use mathlib.Core.Path.{◌≡◌, refl, ap}
use native.Mathlib.Nat.{pow-suc, one-le-pow}
use native.Mathlib.Omega.{arith}

-- The operations mean `bitwise`, a recursion on binary digits whose fuel is the left operand.
module _ (z : ℕ → ℕ) (f : ℕ → ℕ → ℕ) where
  more_fuel : (a b k n : ℕ) → a ≤ k → a ≤ n → digits z f k a b ≡ digits z f n a b
  more_fuel zero b zero zero h h' = refl
  more_fuel zero b zero (suc n) h h' = refl
  more_fuel zero b (suc k) zero h h' = refl
  more_fuel zero b (suc k) (suc n) h h' = refl
  more_fuel (suc a) b zero n h h' = absurd (omega arith)
  more_fuel (suc a) b (suc k) zero h h' = absurd (omega arith)
  more_fuel (suc a) b (suc k) (suc n) h h' =
      rw (more_fuel (suc a / 2) (b / 2) k n (omega arith) (omega arith))

-- One equation for the lowest digit.
bit_or-low : (a b : ℕ) → bit_or a b ≡ bit_or (a / 2) (b / 2) * 2 + max (a % 2) (b % 2)
bit_or-low zero b = simp bit_or-bitwise (omega arith)
bit_or-low (suc a) b = simp bit_or-bitwise (
    omega
      (arith, more_fuel (λ y. y) max (suc a / 2) (b / 2) a (suc a / 2) (omega arith) (omega arith)))

bit_and-low : (a b : ℕ) → bit_and a b ≡ bit_and (a / 2) (b / 2) * 2 + min (a % 2) (b % 2)
bit_and-low zero b = simp bit_and-bitwise (omega arith)
bit_and-low (suc a) b = simp bit_and-bitwise (
    omega
      (arith, more_fuel (λ y. 0) min (suc a / 2) (b / 2) a (suc a / 2) (omega arith) (omega arith)))

bit_or-zero_below : (n a : ℕ) → a < n → bit_or a 0 ≡ a
bit_or-zero_below zero a h = absurd (omega arith)
bit_or-zero_below (suc n) zero h = refl
bit_or-zero_below (suc n) (suc a) h =
    omega (arith, bit_or-low (suc a) 0, bit_or-zero_below n (suc a / 2) (omega arith))

bit_and-zero_below : (n a : ℕ) → a < n → bit_and a 0 ≡ 0
bit_and-zero_below zero a h = absurd (omega arith)
bit_and-zero_below (suc n) zero h = refl
bit_and-zero_below (suc n) (suc a) h =
    omega (arith, bit_and-low (suc a) 0, bit_and-zero_below n (suc a / 2) (omega arith))

double : (q k : ℕ) → q * 2 ^ suc k ≡ 2 * (q * 2 ^ k)
double q k = omega (arith, ap (λ (t : ℕ). q * t) (pow-suc 2 k))

-- `(q << k) | r` is a sum when `r` fits `k` bits.
pub bit_or_fields : (k q r : ℕ) → r < 2 ^ k → bit_or (q * 2 ^ k) r ≡ q * 2 ^ k + r
bit_or_fields zero q r h = ground (arith, bit_or-zero_below (suc q) q (omega arith))
bit_or_fields (suc k) q r h = ground (
  arith,
  bit_or-low (q * 2 ^ suc k) r,
  double q k,
  pow-suc 2 k,
  bit_or_fields k q (r / 2) (omega (arith, pow-suc 2 k)),
)

-- `&` with a mask whose low `k` bits are clear drops the low bits and masks the rest.
pub bit_and_high :
    (k q m r : ℕ) → r < 2 ^ k → bit_and (q * 2 ^ k + r) (m * 2 ^ k) ≡ bit_and q m * 2 ^ k
bit_and_high zero q m r h = ground arith
bit_and_high (suc k) q m r h = ground (
  arith,
  bit_and-low (q * 2 ^ suc k + r) (m * 2 ^ suc k),
  double q k,
  double m k,
  double (bit_and q m) k,
  pow-suc 2 k,
  bit_and_high k q m (r / 2) (omega (arith, pow-suc 2 k)),
)

bit_and_fields : (k q r : ℕ) → r < 2 ^ k → bit_and (q * 2 ^ k + r) (2 ^ k - 1) ≡ r
bit_and_fields zero q r h = ground (arith, bit_and-zero_below (suc q) q (omega arith))
bit_and_fields (suc k) q r h = ground (
  arith,
  bit_and-low (q * 2 ^ suc k + r) (2 ^ suc k - 1),
  double q k,
  pow-suc 2 k,
  one-le-pow k 2,
  bit_and_fields k q (r / 2) (omega (arith, pow-suc 2 k)),
)

-- A mask of `k` low bits is the remainder by `2 ^ k`.
pub bit_and_mask : (k a : ℕ) → bit_and a (2 ^ k - 1) ≡ a % 2 ^ k
bit_and_mask k a = ground (arith, one-le-pow k 2, bit_and_fields k (a / 2 ^ k) (a % 2 ^ k))

-- `|` with a number whose low `k` bits are clear keeps the low bits.
pub bit_or_high :
    (k q m r : ℕ) → r < 2 ^ k → bit_or (q * 2 ^ k + r) (m * 2 ^ k) ≡ bit_or q m * 2 ^ k + r
bit_or_high zero q m r h = ground arith
bit_or_high (suc k) q m r h = ground (
  arith,
  bit_or-low (q * 2 ^ suc k + r) (m * 2 ^ suc k),
  double q k,
  double m k,
  double (bit_or q m) k,
  pow-suc 2 k,
  bit_or_high k q m (r / 2) (omega (arith, pow-suc 2 k)),
)

-- `&` with a mask whose low `k` bits are set keeps the low bits and masks the rest.
pub bit_and_keep :
    (k q m r : ℕ)
    → r < 2 ^ k
    → bit_and (q * 2 ^ k + r) (m * 2 ^ k + (2 ^ k - 1)) ≡ bit_and q m * 2 ^ k + r
bit_and_keep zero q m r h = ground arith
bit_and_keep (suc k) q m r h = ground (
  arith,
  bit_and-low (q * 2 ^ suc k + r) (m * 2 ^ suc k + (2 ^ suc k - 1)),
  double q k,
  double m k,
  double (bit_and q m) k,
  pow-suc 2 k,
  one-le-pow k 2,
  bit_and_keep k q m (r / 2) (omega (arith, pow-suc 2 k)),
)
