-- ===== src/Base/Bits.antt =====
-- `|` of fields that do not overlap, and `&` with a mask, as arithmetic at every width.
use Prim.Native.Nat.{
  ℕ, zero, suc, ◌+◌, ◌-◌, ◌*◌, ◌/◌, ◌%◌, ◌^◌, ◌≤◌, ◌<◌, min, max, digits, bitwise, bit_and, bit_or,
  bit_and-bitwise, bit_or-bitwise,
}
use mathlib.Core.Path.{◌≡◌, refl, ap}
use native.Mathlib.Nat.{pow-suc, one-le-pow}
use native.Mathlib.Omega.{arith}

-- More fuel than the first number changes nothing.
digits_stable :
    (z : ℕ → ℕ) (f : ℕ → ℕ → ℕ) (n m a b : ℕ) → a ≤ n → a ≤ m → digits z f n a b ≡ digits z f m a b
digits_stable z f zero zero a b p q = refl
digits_stable z f zero (suc m) zero b p q = refl
digits_stable z f zero (suc m) (suc a) b p q = absurd (omega arith)
digits_stable z f (suc n) zero zero b p q = refl
digits_stable z f (suc n) zero (suc a) b p q = absurd (omega arith)
digits_stable z f (suc n) (suc m) zero b p q = refl
digits_stable z f (suc n) (suc m) (suc a) b p q =
    rw (digits_stable z f n m (suc a / 2) (b / 2) (omega arith) (omega arith))

lowest_digit :
    (z : ℕ → ℕ) (f : ℕ → ℕ → ℕ) (a b : ℕ)
    → bitwise z f (suc a) b ≡ bitwise z f (suc a / 2) (b / 2) * 2 + f (suc a % 2) (b % 2)
lowest_digit z f a b =
    omega (arith, digits_stable z f a (suc a / 2) (suc a / 2) (b / 2) (omega arith) (omega arith))

bit_or-digit : (a b : ℕ) → bit_or a b ≡ bit_or (a / 2) (b / 2) * 2 + max (a % 2) (b % 2)
bit_or-digit zero b = simp bit_or-bitwise (omega arith)
bit_or-digit (suc a) b = simp bit_or-bitwise (lowest_digit (λ y. y) max a b)

bit_and-digit : (a b : ℕ) → bit_and a b ≡ bit_and (a / 2) (b / 2) * 2 + min (a % 2) (b % 2)
bit_and-digit zero b = simp bit_and-bitwise (omega arith)
bit_and-digit (suc a) b = simp bit_and-bitwise (lowest_digit (λ y. 0) min a b)

double_power : (q k : ℕ) → q * 2 ^ suc k ≡ 2 * (q * 2 ^ k)
double_power q k = omega (arith, ap (λ (t : ℕ). q * t) (pow-suc 2 k))

zero-bit_or : (b : ℕ) → bit_or 0 b ≡ b
zero-bit_or b = bit_or-bitwise 0 b

zero-bit_and : (b : ℕ) → bit_and 0 b ≡ 0
zero-bit_and b = bit_and-bitwise 0 b

-- `r | q << k` is a sum when `r` has `k` bits.
pub bit_or_disjoint : (k r q : ℕ) → r < 2 ^ k → bit_or r (q * 2 ^ k) ≡ r + q * 2 ^ k
bit_or_disjoint zero zero q h = omega (arith, zero-bit_or (q * 1))
bit_or_disjoint zero (suc r) q h = absurd (omega arith)
bit_or_disjoint (suc k) r q h = ground (
  arith,
  bit_or-digit r (q * 2 ^ suc k),
  double_power q k,
  pow-suc 2 k,
  bit_or_disjoint k (r / 2) q,
)

bit_and_zero_fuel : (n a : ℕ) → a ≤ n → bit_and a 0 ≡ 0
bit_and_zero_fuel n zero h = refl
bit_and_zero_fuel zero (suc a) h = absurd (omega arith)
bit_and_zero_fuel (suc n) (suc a) h =
    omega (arith, bit_and-digit (suc a) 0, bit_and_zero_fuel n (suc a / 2) (omega arith))

low_bits_of_sum : (w q r : ℕ) → r < 2 ^ w → bit_and (q * 2 ^ w + r) (2 ^ w - 1) ≡ r
low_bits_of_sum zero q r h = omega (arith, bit_and_zero_fuel (q * 1 + r) (q * 1 + r) (omega arith))
low_bits_of_sum (suc w) q r h = ground (
  arith,
  bit_and-digit (q * 2 ^ suc w + r) (2 ^ suc w - 1),
  double_power q w,
  pow-suc 2 w,
  one-le-pow w 2,
  low_bits_of_sum w q (r / 2),
)

-- A mask of `w` low ones is the remainder by `2 ^ w`.
pub bit_and_low : (w a : ℕ) → bit_and a (2 ^ w - 1) ≡ a % 2 ^ w
bit_and_low w a = ground (arith, one-le-pow w 2, low_bits_of_sum w (a / 2 ^ w) (a % 2 ^ w))

-- A mask that ends in `k` zeros clears the low `k` bits.
pub bit_and_high :
    (k q r m : ℕ) → r < 2 ^ k → bit_and (q * 2 ^ k + r) (m * 2 ^ k) ≡ bit_and q m * 2 ^ k
bit_and_high zero q r m h =
    let e : q * 1 + r ≡ q = omega arith in
    let e' : m * 1 ≡ m = omega arith in rw (e, e') (omega arith)
bit_and_high (suc k) q r m h = ground (
  arith,
  bit_and-digit (q * 2 ^ suc k + r) (m * 2 ^ suc k),
  double_power q k,
  double_power m k,
  double_power (bit_and q m) k,
  pow-suc 2 k,
  bit_and_high k q (r / 2) m,
)
