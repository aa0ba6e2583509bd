-- ===== src/Base/Bits.antt =====
-- The bit operations of C, digit by digit: `bit x k` is the digit of `x` at 2 ^ k.
use Prim.Native.Nat.{
  ℕ, zero, suc, ◌+◌, ◌-◌, ◌*◌, ◌/◌, ◌%◌, ◌^◌, ◌≤◌, ◌<◌, min, max, bit_and, bit_or, digits, bitwise,
  bit_and-bitwise, bit_or-bitwise,
}
use mathlib.Core.Path.{◌≡◌, refl, ap}
use native.Mathlib.Nat.{pow-suc, one-le-pow}
use native.Mathlib.Omega.{arith}

unfoldable pub bit : ℕ → ℕ → ℕ
bit x zero = x % 2
bit x (suc k) = bit (x / 2) k

-- `more` fuel than `a` needs gives the same digits.
module _ (last : ℕ → ℕ) (op : ℕ → ℕ → ℕ) where
  digits_surplus :
      (fuel more a b : ℕ) → a ≤ fuel → a ≤ more → digits last op more a b ≡ digits last op fuel a b
  digits_surplus zero zero zero b h k = refl
  digits_surplus zero (suc more) zero b h k = refl
  digits_surplus (suc fuel) zero zero b h k = refl
  digits_surplus (suc fuel) (suc more) zero b h k = refl
  digits_surplus zero more (suc a) b h k = absurd (omega arith)
  digits_surplus (suc fuel) zero (suc a) b h k = absurd (omega arith)
  digits_surplus (suc fuel) (suc more) (suc a) b h k =
      let tail = digits_surplus fuel more (suc a / 2) (b / 2) (omega arith) (omega arith) in
      ap (λ (n : ℕ). n * 2 + op (suc a % 2) (b % 2)) tail

  last_digit :
      (a b : ℕ)
      → bitwise last op (suc a) b ≡ bitwise last op (suc a / 2) (b / 2) * 2 + op (suc a % 2) (b % 2)
  last_digit a b =
      let tail = digits_surplus (suc a / 2) a (suc a / 2) (b / 2) (omega arith) (omega arith) in
      ap (λ (n : ℕ). n * 2 + op (suc a % 2) (b % 2)) tail

bit_or-last : (a b : ℕ) → bit_or a b ≡ bit_or (a / 2) (b / 2) * 2 + max (a % 2) (b % 2)
bit_or-last zero b = simp bit_or-bitwise (omega arith)
bit_or-last (suc a) b = simp bit_or-bitwise (last_digit (λ y. y) max a b)

bit_and-last : (a b : ℕ) → bit_and a b ≡ bit_and (a / 2) (b / 2) * 2 + min (a % 2) (b % 2)
bit_and-last zero b = simp bit_and-bitwise (omega arith)
bit_and-last (suc a) b = simp bit_and-bitwise (last_digit (λ y. 0) min a b)

bit_or-half : (a b : ℕ) → bit_or a b / 2 ≡ bit_or (a / 2) (b / 2)
bit_or-half a b = omega (arith, bit_or-last a b)

bit_and-half : (a b : ℕ) → bit_and a b / 2 ≡ bit_and (a / 2) (b / 2)
bit_and-half a b = omega (arith, bit_and-last a b)

pub bit-bit_or : (k a b : ℕ) → bit (bit_or a b) k ≡ max (bit a k) (bit b k)
unfolding bit
bit-bit_or zero a b = omega (arith, bit_or-last a b)
bit-bit_or (suc k) a b = rw (bit_or-half a b) (bit-bit_or k (a / 2) (b / 2))

pub bit-bit_and : (k a b : ℕ) → bit (bit_and a b) k ≡ min (bit a k) (bit b k)
unfolding bit
bit-bit_and zero a b = omega (arith, bit_and-last a b)
bit-bit_and (suc k) a b = rw (bit_and-half a b) (bit-bit_and k (a / 2) (b / 2))

-- `~a` on `w` bits.
abbrev pub complement : ℕ → ℕ → ℕ
complement w a = 2 ^ w - 1 - a

pub bit-complement : (k w a : ℕ) → k < w → a < 2 ^ w → bit (complement w a) k ≡ 1 - bit a k
unfolding bit
bit-complement k zero a h l = absurd (omega arith)
bit-complement zero (suc w) a h l = omega (arith, pow-suc 2 w, one-le-pow w 2)
bit-complement (suc k) (suc w) a h l =
    let half : complement (suc w) a / 2 ≡ complement w (a / 2) =
      omega (arith, pow-suc 2 w, one-le-pow w 2) in
    rw half (bit-complement k w (a / 2) (omega arith) (omega (arith, pow-suc 2 w)))

bit_and-zero : (fuel a : ℕ) → a ≤ fuel → bit_and a 0 ≡ 0
bit_and-zero zero zero h = refl
bit_and-zero zero (suc a) h = absurd (omega arith)
bit_and-zero (suc fuel) zero h = refl
bit_and-zero (suc fuel) (suc a) h =
    omega (arith, bit_and-last (suc a) 0, bit_and-zero fuel (suc a / 2) (omega arith))

-- Testing a number with a single bit set tests that bit.
pub bit_and-one_bit : (k a : ℕ) → bit_and a (2 ^ k) ≡ bit a k * 2 ^ k
unfolding bit
bit_and-one_bit zero a = omega (arith, bit_and-last a 1, bit_and-zero (a / 2) (a / 2) (omega arith))
bit_and-one_bit (suc k) a =
    let half : 2 ^ suc k / 2 ≡ 2 ^ k = omega (arith, pow-suc 2 k) in
    omega (
      arith,
      bit_and-last a (2 ^ suc k),
      pow-suc 2 k,
      half,
      ap (λ (t : ℕ). bit_and (a / 2) t) half,
      bit_and-one_bit k (a / 2),
      ap (λ (t : ℕ). bit (a / 2) k * t) (pow-suc 2 k),
    )

bit_or-zero : (fuel a : ℕ) → a ≤ fuel → bit_or a 0 ≡ a
bit_or-zero zero zero h = refl
bit_or-zero zero (suc a) h = absurd (omega arith)
bit_or-zero (suc fuel) zero h = refl
bit_or-zero (suc fuel) (suc a) h =
    omega (arith, bit_or-last (suc a) 0, bit_or-zero fuel (suc a / 2) (omega arith))

-- `a << k` joined with a number of `k` digits.
pub bit_or-disjoint : (k a b : ℕ) → b < 2 ^ k → bit_or (a * 2 ^ k) b ≡ a * 2 ^ k + b
bit_or-disjoint zero a b h =
    let none : b ≡ 0 = omega arith in
    let one : a * 2 ^ 0 ≡ a = omega arith in
    rw (none, one) (omega (arith, bit_or-zero a a (omega arith)))
bit_or-disjoint (suc k) a b h =
    let shifted : a * 2 ^ suc k ≡ a * 2 ^ k * 2 =
      omega (arith, ap (λ (t : ℕ). a * t) (pow-suc 2 k)) in
    let half : a * 2 ^ suc k / 2 ≡ a * 2 ^ k = omega (arith, shifted) in
    omega (
      arith,
      bit_or-last (a * 2 ^ suc k) b,
      shifted,
      ap (λ (t : ℕ). bit_or t (b / 2)) half,
      bit_or-disjoint k a (b / 2) (omega (arith, pow-suc 2 k)),
    )

-- `a & (2^k - 1)`, where the lowest `k` digits of `a` are `r`
pub bit_and-mask : (k q r : ℕ) → r < 2 ^ k → bit_and (q * 2 ^ k + r) (2 ^ k - 1) ≡ r
bit_and-mask zero q r h = omega (arith, bit_and-zero (q * 1 + r) (q * 1 + r) (omega arith))
bit_and-mask (suc k) q r h =
    let shifted : q * 2 ^ suc k ≡ q * 2 ^ k * 2 =
      omega (arith, ap (λ (t : ℕ). q * t) (pow-suc 2 k)) in
    let half : (2 ^ suc k - 1) / 2 ≡ 2 ^ k - 1 = omega (arith, pow-suc 2 k, one-le-pow k 2) in
    let front : (q * 2 ^ suc k + r) / 2 ≡ q * 2 ^ k + r / 2 = omega (arith, shifted) in
    omega (
      arith,
      bit_and-last (q * 2 ^ suc k + r) (2 ^ suc k - 1),
      pow-suc 2 k,
      one-le-pow k 2,
      shifted,
      ap (bit_and ((q * 2 ^ suc k + r) / 2)) half,
      ap (λ (t : ℕ). bit_and t (2 ^ k - 1)) front,
      bit_and-mask k q (r / 2) (omega (arith, pow-suc 2 k)),
    )
