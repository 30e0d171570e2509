-- ===== src/Common/Bits.antt =====
-- Laws of the bitwise operations at variables, from the recursion on binary digits that they mean.
use Prim.Native.Nat.{ℕ, zero, suc, ◌+◌, ◌-◌, ◌*◌, ◌/◌, ◌%◌, ◌^◌, ◌≤◌, ◌<◌, min, max}
use Prim.Native.Nat.{bit_and, bit_or, bit_xor, digits, bitwise, differ}
use Prim.Native.Nat.{bit_and-bitwise, bit_or-bitwise, bit_xor-bitwise}
use mathlib.Core.Path.{◌≡◌, refl, ap, sym, ◌∙◌}
use native.Mathlib.Nat.{le_refl, pow-suc}
use native.Mathlib.Omega.{arith}

-- `last` reads what is left of the second word once the first one is used up.
module _ (last : ℕ → ℕ) (op : ℕ → ℕ → ℕ) where
  one_more : (fuel x y : ℕ) → x ≤ fuel → digits last op (suc fuel) x y ≡ digits last op fuel x y
  one_more (suc fuel) zero y h = refl
  one_more zero zero y h = refl
  one_more zero (suc x) y h = absurd (omega arith)
  one_more (suc fuel) (suc x) y h = rw (one_more fuel (suc x / 2) (y / 2) (omega arith)) refl

  spare_fuel :
      (spare fuel x y : ℕ) → x ≤ fuel → digits last op (spare + fuel) x y ≡ digits last op fuel x y
  spare_fuel zero fuel x y h = ap (λ (n : ℕ). digits last op n x y) (omega arith)
  spare_fuel (suc spare) fuel x y h =
      let one = one_more (spare + fuel) x y (omega arith) in
      let shift : suc spare + fuel ≡ suc (spare + fuel) = omega arith in
      ap (λ (n : ℕ). digits last op n x y) shift ∙ (one ∙ spare_fuel spare fuel x y h)

  split_suc :
      (x y : ℕ)
      → op (suc x % 2) (y % 2) + 2 * bitwise last op (suc x / 2) (y / 2) ≡ bitwise last op (suc x) y
  split_suc x y =
      let half : ℕ = suc x / 2 in
      let enough : x ≡ x - half + half = omega arith in
      let whole =
        ap (λ (n : ℕ). digits last op n half (y / 2)) enough
        ∙ spare_fuel (x - half) half half (y / 2) (le_refl half) in
      omega (arith, whole)

differ_bits : (a b : ℕ) → a < 2 → b < 2 → differ a b ≡ (a + b) % 2
differ_bits zero b p q = omega arith
differ_bits (suc zero) zero p q = omega arith
differ_bits (suc zero) (suc zero) p q = omega arith
differ_bits (suc zero) (suc (suc b)) p q = absurd (omega arith)
differ_bits (suc (suc a)) b p q = absurd (omega arith)

-- Each operation acts on the last digits and on the halves.
pub bit_and-digit : (x y : ℕ) → bit_and x y ≡ min (x % 2) (y % 2) + 2 * bit_and (x / 2) (y / 2)
bit_and-digit zero y = simp bit_and-bitwise (omega arith)
bit_and-digit (suc x) y = simp bit_and-bitwise (sym (split_suc (λ rest. 0) min x y))

pub bit_or-digit : (x y : ℕ) → bit_or x y ≡ max (x % 2) (y % 2) + 2 * bit_or (x / 2) (y / 2)
bit_or-digit zero y = simp bit_or-bitwise (omega arith)
bit_or-digit (suc x) y = simp bit_or-bitwise (sym (split_suc (λ rest. rest) max x y))

pub bit_xor-digit : (x y : ℕ) → bit_xor x y ≡ (x % 2 + y % 2) % 2 + 2 * bit_xor (x / 2) (y / 2)
bit_xor-digit zero y = simp bit_xor-bitwise (omega arith)
bit_xor-digit (suc x) y =
    let digit = differ_bits (suc x % 2) (y % 2) (omega arith) (omega arith) in
    simp bit_xor-bitwise (omega (arith, split_suc (λ rest. rest) differ x y, digit))

-- A word of `k` bits stays one under exclusive or, and the same mask again restores it.
pub bit_xor_lt : (k a b : ℕ) → a < 2 ^ k → b < 2 ^ k → bit_xor a b < 2 ^ k
bit_xor_lt zero a b p q = ground (arith, bit_xor-digit 0 0)
bit_xor_lt (suc k) a b p q = omega (
  arith,
  bit_xor-digit a b,
  pow-suc 2 k,
  bit_xor_lt k (a / 2) (b / 2) (omega (arith, pow-suc 2 k)) (omega (arith, pow-suc 2 k)),
)

pub bit_xor_twice : (k a b : ℕ) → a < 2 ^ k → b < 2 ^ k → bit_xor (bit_xor a b) b ≡ a
bit_xor_twice zero a b p q = ground (arith, bit_xor-digit 0 0)
bit_xor_twice (suc k) a b p q = omega (
  arith,
  bit_xor-digit (bit_xor a b) b,
  bit_xor-digit a b,
  ap (λ (t : ℕ). bit_xor t (b / 2)) half,
  bit_xor_twice k (a / 2) (b / 2) (omega (arith, pow-suc 2 k)) (omega (arith, pow-suc 2 k)),
)
  where
    half : bit_xor a b / 2 ≡ bit_xor (a / 2) (b / 2)
    half = omega (arith, bit_xor-digit a b)
