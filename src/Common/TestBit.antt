-- ===== src/Common/TestBit.antt =====
-- Single binary digits of a number: how the bitwise operations change them.
use Prim.Native.Nat.{ℕ, zero, suc, ◌+◌, ◌-◌, ◌*◌, ◌/◌, ◌%◌, ◌^◌, ◌≤◌, ◌<◌, min, max}
use Prim.Native.Nat.{bit_and, bit_or, bit_and-bitwise}
use mathlib.Core.Path.{◌≡◌, refl, ap}
use mathlib.Core.Logic.{◌≢◌, ◌↔◌}
use native.Mathlib.Nat.{pow-suc, one-le-pow}
use native.Mathlib.Omega.{arith}
use miuturn.Common.Bits.{bit_and-digit, bit_or-digit}

-- The digit of `x` at place `k`, 0 or 1.
pub bit : ℕ → ℕ → ℕ
bit zero x = x % 2
bit (suc k) x = bit k (x / 2)

pub bit-le-one : (k x : ℕ) → bit k x ≤ 1
unfolding bit
bit-le-one zero x = omega arith
bit-le-one (suc k) x = bit-le-one k (x / 2)

pub bit-bit_or : (k a b : ℕ) → bit k (bit_or a b) ≡ max (bit k a) (bit k b)
unfolding bit
bit-bit_or zero a b = omega (arith, bit_or-digit a b)
bit-bit_or (suc k) a b =
    let e : bit_or a b / 2 ≡ bit_or (a / 2) (b / 2) = omega (arith, bit_or-digit a b) in
    rw e (bit-bit_or k (a / 2) (b / 2))

pub bit-bit_and : (k a b : ℕ) → bit k (bit_and a b) ≡ min (bit k a) (bit k b)
unfolding bit
bit-bit_and zero a b = omega (arith, bit_and-digit a b)
bit-bit_and (suc k) a b =
    let e : bit_and a b / 2 ≡ bit_and (a / 2) (b / 2) = omega (arith, bit_and-digit a b) in
    rw e (bit-bit_and k (a / 2) (b / 2))

pub bit-zero : (k : ℕ) → bit k 0 ≡ 0
unfolding bit
bit-zero zero = refl
bit-zero (suc k) = bit-zero k

half_pow : (k : ℕ) → 2 ^ suc k / 2 ≡ 2 ^ k
half_pow k = omega (arith, pow-suc 2 k)

pub bit-pow_self : (k : ℕ) → bit k (2 ^ k) ≡ 1
unfolding bit
bit-pow_self zero = refl
bit-pow_self (suc k) = rw (half_pow k) (bit-pow_self k)

pub bit-pow_ne : (j k : ℕ) → j ≢ k → bit j (2 ^ k) ≡ 0
unfolding bit
bit-pow_ne zero zero h = absurd (h refl)
bit-pow_ne zero (suc k) h = omega (arith, pow-suc 2 k)
bit-pow_ne (suc j) zero h = bit-zero j
bit-pow_ne (suc j) (suc k) h = rw (half_pow k) (bit-pow_ne j k (λ e. h (ap suc e)))

-- The digits of the complement in `n` places.
pub bit_complement : (j n a : ℕ) → j < n → a < 2 ^ n → bit j (2 ^ n - 1 - a) + bit j a ≡ 1
unfolding bit
bit_complement j zero a h p = absurd (omega arith)
bit_complement zero (suc n) a h p = omega (arith, pow-suc 2 n)
bit_complement (suc j) (suc n) a h p =
    let e : (2 ^ suc n - 1 - a) / 2 ≡ 2 ^ n - 1 - a / 2 = omega (arith, pow-suc 2 n) in
    rw e (bit_complement j n (a / 2) (omega arith) (omega (arith, pow-suc 2 n)))

bit_and-zero_fuel : (n a : ℕ) → a ≤ n → bit_and a 0 ≡ 0
bit_and-zero_fuel zero zero h = refl
bit_and-zero_fuel zero (suc a) h = absurd (omega arith)
bit_and-zero_fuel (suc n) zero h = refl
bit_and-zero_fuel (suc n) (suc a) h =
    omega (arith, bit_and-digit (suc a) 0, bit_and-zero_fuel n (suc a / 2) (omega arith))

-- `x & (1 << k)` is the digit in its place.
pub bit_and-pow : (k x : ℕ) → bit_and x (2 ^ k) ≡ bit k x * 2 ^ k
unfolding bit
bit_and-pow zero x =
    omega (arith, bit_and-digit x 1, bit_and-zero_fuel (x / 2) (x / 2) (omega arith))
bit_and-pow (suc k) x = omega (
  arith,
  bit_and-digit x (2 ^ suc k),
  ap (λ (t : ℕ). bit_and (x / 2) t) (half_pow k),
  bit_and-pow k (x / 2),
  ap (λ (t : ℕ). bit k (x / 2) * t) (pow-suc 2 k),
  pow-suc 2 k,
)

pub bit_or_lt : (n a b : ℕ) → a < 2 ^ n → b < 2 ^ n → bit_or a b < 2 ^ n
bit_or_lt zero a b p q =
    let e : a ≡ 0 = omega arith in let f : b ≡ 0 = omega arith in rw (e, f) (omega arith)
bit_or_lt (suc n) a b p q = omega (
  arith,
  bit_or-digit a b,
  pow-suc 2 n,
  bit_or_lt n (a / 2) (b / 2) (omega (arith, pow-suc 2 n)) (omega (arith, pow-suc 2 n)),
)

pub bit_and_le : (n a b : ℕ) → a ≤ n → bit_and a b ≤ a
bit_and_le n zero b h = simp bit_and-bitwise (omega arith)
bit_and_le zero (suc a) b h = absurd (omega arith)
bit_and_le (suc n) (suc a) b h =
    omega (arith, bit_and-digit (suc a) b, bit_and_le n (suc a / 2) (b / 2) (omega arith))

-- A number with no digit below its width is 0.
pub zero_of_bits : (n x : ℕ) → x < 2 ^ n → ((k : ℕ) → k < n → bit k x ≡ 0) → x ≡ 0
unfolding bit
zero_of_bits zero x h d = omega arith
zero_of_bits (suc n) x h d = omega (
  arith,
  d 0 (omega arith),
  zero_of_bits n (x / 2) (omega (arith, pow-suc 2 n)) (λ k p. d (suc k) (omega arith)),
)

-- `u64::trailing_zeros`, for a word of `n` bits: the place of the lowest 1, or `n`.
abbrev lowest : ℕ → ℕ → ℕ
lowest zero rest = suc rest
lowest (suc m) rest = 0

unfoldable pub trailing_zeros : ℕ → ℕ → ℕ
trailing_zeros zero x = 0
trailing_zeros (suc n) x = lowest (x % 2) (trailing_zeros n (x / 2))

abbrev pub IsLowest : ℕ → ℕ → ℕ → Type 0
IsLowest n x place = (place < n) × (bit place x ≡ 1) × ((k : ℕ) → k < place → bit k x ≡ 0)

IsLowest-even :
    (n x place : ℕ) → x % 2 ≡ 0 → IsLowest n (x / 2) place → IsLowest (suc n) x (suc place)
unfolding bit
IsLowest-even n x place e (h, one, below) = (omega arith, one, zeros)
  where
    zeros : (k : ℕ) → k < suc place → bit k x ≡ 0
    zeros zero p = e
    zeros (suc k) p = below k (omega arith)

IsLowest-odd : (n x m : ℕ) → x % 2 ≡ suc m → IsLowest (suc n) x 0
unfolding bit
IsLowest-odd n x m e = (omega arith, omega arith, λ k p. absurd (omega arith))

IsLowest-lowest :
    (n x r place : ℕ)
    → x % 2 ≡ r
    → (r ≡ 0 → IsLowest n (x / 2) place)
    → IsLowest (suc n) x (lowest r place)
IsLowest-lowest n x zero place e h = IsLowest-even n x place e (h refl)
IsLowest-lowest n x (suc m) place e h = IsLowest-odd n x m e

pub trailing_zeros-IsLowest : (n x : ℕ) → x < 2 ^ n → 0 < x → IsLowest n x (trailing_zeros n x)
unfolding trailing_zeros
trailing_zeros-IsLowest zero x h p = absurd (omega arith)
trailing_zeros-IsLowest (suc n) x h p =
    IsLowest-lowest n x (x % 2) (trailing_zeros n (x / 2)) refl
      λ e. trailing_zeros-IsLowest n (x / 2) (omega (arith, pow-suc 2 n)) (omega arith)

-- `x & (1 << k) == 0` exactly when the digit is 0.
pub mask_iff : (k x : ℕ) → (bit_and x (2 ^ k) ≡ 0) ↔ (bit k x ≡ 0)
mask_iff k x = (
  λ e.
      zero_of_product (bit k x) (2 ^ k) (one-le-pow k 2 (omega arith))
        (omega (arith, e, bit_and-pow k x)),
  λ e. rw (bit_and-pow k x, e) (omega arith),
)
  where
    zero_of_product : (a b : ℕ) → 1 ≤ b → a * b ≡ 0 → a ≡ 0
    zero_of_product zero b h p = refl
    zero_of_product (suc a) b h p = absurd (omega arith)

pub bit_max : (k n : ℕ) → k < n → bit k (2 ^ n - 1) ≡ 1
bit_max k n h =
    let e : 2 ^ n - 1 - 0 ≡ 2 ^ n - 1 = omega arith in
    omega (arith, ap (bit k) e, bit_complement k n 0 h (one-le-pow n 2 (omega arith)), bit-zero k)

pub two_pow_lt : (b n : ℕ) → b < n → 2 ^ b < 2 ^ n
two_pow_lt zero zero h = absurd (omega arith)
two_pow_lt zero (suc n) h = omega (arith, pow-suc 2 n, one-le-pow n 2)
two_pow_lt (suc b) zero h = absurd (omega arith)
two_pow_lt (suc b) (suc n) h = omega (arith, pow-suc 2 b, pow-suc 2 n, two_pow_lt b n (omega arith))
