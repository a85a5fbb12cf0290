-- ===== src/Common/Bits.antt =====
-- `|` of disjoint fields and `&` with a mask, as arithmetic, at every width.
use Prim.Native.Nat.{
  ℕ, zero, suc, ◌+◌, ◌-◌, ◌*◌, ◌/◌, ◌%◌, ◌^◌, ◌≤◌, ◌<◌, min, max, digits, bitwise, bit_and, bit_or,
  bit_and-bitwise, bit_or-bitwise,
}
use mathlib.Core.Path.{◌≡◌, refl, ap}
use native.Mathlib.Nat.{le_refl, pow-suc}
use native.Mathlib.Omega.{arith}

-- `digits` spends one unit of fuel on each binary digit, and the number itself is enough. Both laws
-- of an operation are about its function on one digit and its value at a left operand of 0.
module _ (at_zero : ℕ → ℕ) (op : ℕ → ℕ → ℕ) where
  digits_enough :
      (a b : ℕ) (k n : ℕ) → a ≤ k → a ≤ n → digits at_zero op k a b ≡ digits at_zero op n a b
  digits_enough zero b zero zero hk hn = refl
  digits_enough zero b zero (suc n) hk hn = refl
  digits_enough zero b (suc k) zero hk hn = refl
  digits_enough zero b (suc k) (suc n) hk hn = refl
  digits_enough (suc a) b zero n hk hn = absurd (omega arith)
  digits_enough (suc a) b (suc k) zero hk hn = absurd (omega arith)
  digits_enough (suc a) b (suc k) (suc n) hk hn =
      let halves = digits_enough (suc a / 2) (b / 2) k n (omega arith) (omega arith) in rw halves

  bitwise_digit :
      (a b : ℕ)
      → bitwise at_zero op (suc a) b
        ≡ op (suc a % 2) (b % 2) + bitwise at_zero op (suc a / 2) (b / 2) * 2
  bitwise_digit a b =
      let half = suc a / 2 in
      let enough = digits_enough half (b / 2) a half (omega arith) (omega arith) in
      omega (arith, enough)

bit_or_digit : (a b : ℕ) → bit_or a b ≡ max (a % 2) (b % 2) + bit_or (a / 2) (b / 2) * 2
bit_or_digit zero b = simp bit_or-bitwise (omega arith)
bit_or_digit (suc a) b = simp bit_or-bitwise (bitwise_digit (λ kept. kept) max a b)

bit_and_digit : (a b : ℕ) → bit_and a b ≡ min (a % 2) (b % 2) + bit_and (a / 2) (b / 2) * 2
bit_and_digit zero b = simp bit_and-bitwise (omega arith)
bit_and_digit (suc a) b = simp bit_and-bitwise (bitwise_digit (λ dropped. 0) min a b)

double_shift : (q k : ℕ) → q * 2 ^ suc k ≡ 2 * (q * 2 ^ k)
double_shift q k = omega (arith, ap (λ (t : ℕ). q * t) (pow-suc 2 k))

-- An operand below `2 ^ n` has its digits in `n` rounds, so the induction is on a bound.
bit_or-zero : (n a : ℕ) → a ≤ n → bit_or a 0 ≡ a
bit_or-zero zero zero h = refl
bit_or-zero zero (suc a) h = absurd (omega arith)
bit_or-zero (suc n) a h = omega (arith, bit_or_digit a 0, bit_or-zero n (a / 2) (omega arith))

-- `(q << k) | r` is a sum when `r` fits `k` bits.
pub bit_or_fields : (k q r : ℕ) → r < 2 ^ k → bit_or (q * 2 ^ k) r ≡ q * 2 ^ k + r
bit_or_fields zero q r h = ground (arith, bit_or-zero q q (le_refl q))
bit_or_fields (suc k) q r h = ground (
  arith,
  bit_or_digit (q * 2 ^ suc k) r,
  double_shift q k,
  bit_or_fields k q (r / 2) (omega (arith, pow-suc 2 k)),
)

-- `x & (ones of w bits)` keeps a number of w bits.
bit_and_ones : (w x : ℕ) → x < 2 ^ w → bit_and x (2 ^ w - 1) ≡ x
bit_and_ones zero x h = let e : x ≡ 0 = omega arith in rw e refl
bit_and_ones (suc w) x h = ground (
  arith,
  bit_and_digit x (2 ^ suc w - 1),
  pow-suc 2 w,
  bit_and_ones w (x / 2) (omega (arith, pow-suc 2 w)),
)

-- A mask of `w` ones above `k` zeros clears the low `k` bits.
pub bit_and_high :
    (k w q r : ℕ)
    → r < 2 ^ k
    → q < 2 ^ w
    → bit_and (q * 2 ^ k + r) ((2 ^ w - 1) * 2 ^ k) ≡ q * 2 ^ k
bit_and_high zero w q r h g =
    let e : q * 1 + r ≡ q = omega arith in ground (arith, bit_and_ones w q g)
bit_and_high (suc k) w q r h g = ground (
  arith,
  bit_and_digit (q * 2 ^ suc k + r) ((2 ^ w - 1) * 2 ^ suc k),
  double_shift q k,
  double_shift (2 ^ w - 1) k,
  bit_and_high k w q (r / 2) (omega (arith, pow-suc 2 k)) g,
)

bit_and-zero : (n a : ℕ) → a ≤ n → bit_and a 0 ≡ 0
bit_and-zero zero zero h = refl
bit_and-zero zero (suc a) h = absurd (omega arith)
bit_and-zero (suc n) a h = omega (arith, bit_and_digit a 0, bit_and-zero n (a / 2) (omega arith))

-- A mask of `k` ones keeps the low `k` bits.
pub bit_and_low : (k q r : ℕ) → r < 2 ^ k → bit_and (q * 2 ^ k + r) (2 ^ k - 1) ≡ r
bit_and_low zero q r h = ground (arith, bit_and-zero (q * 1 + r) (q * 1 + r) (le_refl _))
bit_and_low (suc k) q r h = ground (
  arith,
  bit_and_digit (q * 2 ^ suc k + r) (2 ^ suc k - 1),
  double_shift q k,
  pow-suc 2 k,
  bit_and_low k q (r / 2) (omega (arith, pow-suc 2 k)),
)
