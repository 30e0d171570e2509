-- ===== src/Common/Decimal.antt =====
-- A number that is printed in decimal is read back, and `split` cuts at each occurrence.
use miuturn.Common.Texts.{digits, parse_unsigned, print, print_fuel, split, has_char}
use miuturn.Common.Tests.{ltb, ltb→lt, ltb→le, Bool-cases}
use miuturn.Common.Lists.{length, All, length-append, All-append}
use Prim.Native.Nat.{ℕ, zero, suc, ◌+◌, ◌*◌, ◌/◌, ◌%◌, ◌≤◌, ◌<◌}
use mathlib.Core.Path.{◌≡◌, refl, sym, ◌∙◌, ap}
use mathlib.Core.Logic.{inl, inr}
use mathlib.Core.Bool.{false}
use mathlib.Core.List.{List, [], ◌∷◌, ◌++◌, append_assoc, append-nil}
use mathlib.Core.Option.{some}
use native.Mathlib.Omega.{arith}

abbrev IsDigit : ℕ → Type 0
IsDigit c = (b'0' ≤ c) × (c ≤ b'9')

digits-digit :
    (limit v d : ℕ) (rest : List ℕ)
    → d < 10
    → v * 10 + d < limit
    → digits limit v ((b'0' + d) ∷ rest) ≡ digits limit (v * 10 + d) rest
unfolding digits
digits-digit limit v d rest small fits = ground arith

-- The digits of a number, and what follows them.
digits-print_fuel :
    (limit fuel n : ℕ) (rest : List ℕ)
    → n ≤ fuel
    → n < limit
    → digits limit 0 (print_fuel fuel n ++ rest) ≡ digits limit n rest
unfolding print_fuel
digits-print_fuel limit zero n rest h fits =
    let e : n ≡ 0 = omega arith in
    digits-digit limit 0 (n % 10) rest (omega arith) (omega arith)
    ∙ ap (λ k. digits limit k rest) (omega arith)
digits-print_fuel limit (suc fuel) n rest h fits = elim (Bool-cases (ltb n 10)) [
  | inl small ↦
      rw (small, print_fuel)
        (digits-digit limit 0 n rest (ltb→lt n 10 small) (omega arith)
          ∙ ap (λ k. digits limit k rest) (omega arith))
  | inr large ↦
      let up : 10 ≤ n = ltb→le n 10 large in
      rw (large, print_fuel)
        (ap (digits limit 0) (append_assoc (print_fuel fuel (n / 10)) ((b'0' + n % 10) ∷ []) rest)
          ∙ (digits-print_fuel limit fuel (n / 10) ((b'0' + n % 10) ∷ rest) (omega arith)
                (omega arith)
              ∙ (digits-digit limit (n / 10) (n % 10) rest (omega arith) (omega arith)
                  ∙ ap (λ k. digits limit k rest) (omega arith))))
]

print_fuel-digits : (fuel n : ℕ) → All IsDigit (print_fuel fuel n)
unfolding print_fuel
print_fuel-digits zero n = omega arith
print_fuel-digits (suc fuel) n = elim (Bool-cases (ltb n 10)) [
  | inl small ↦ ground (arith, small)
  | inr large ↦
      rw (large, print_fuel)
        (All-append IsDigit (print_fuel fuel (n / 10)) ((b'0' + n % 10) ∷ [])
          (print_fuel-digits fuel (n / 10)) (omega arith))
]

print_fuel-length : (fuel n : ℕ) → 0 < length (print_fuel fuel n)
unfolding print_fuel
print_fuel-length zero n = omega arith
print_fuel-length (suc fuel) n = elim (Bool-cases (ltb n 10)) [
  | inl small ↦ rw (small, print_fuel) (omega arith)
  | inr large ↦
      rw (large, print_fuel)
        (omega (arith, length-append {0} (print_fuel fuel (n / 10)) ((b'0' + n % 10) ∷ [])))
]

-- A text that begins with a digit has no sign.
parse_unsigned-digits :
    (limit : ℕ) (s : List ℕ)
    → All IsDigit s
    → 0 < length s
    → parse_unsigned limit s ≡ digits limit 0 s
unfolding parse_unsigned
parse_unsigned-digits limit [] h n = absurd (omega arith)
parse_unsigned-digits limit (c ∷ []) h n = refl
parse_unsigned-digits limit (c ∷ d ∷ s) h n = ground arith

pub parse_unsigned-print : (limit n : ℕ) → n < limit → parse_unsigned limit (print n) ≡ some n
unfolding print digits
parse_unsigned-print limit n fits =
    parse_unsigned-digits limit (print_fuel n n) (print_fuel-digits n n) (print_fuel-length n n)
    ∙ (ap (digits limit 0) (sym (append-nil (print_fuel n n)))
        ∙ digits-print_fuel limit n n [] (omega arith) fits)

-- No part holds the character.
pub split_none : (c : ℕ) (s : List ℕ) → has_char c s ≡ false → split c s ≡ s ∷ []
unfolding split
split_none c [] h = refl
split_none c (d ∷ s) h = ground (arith, split_none c s)

pub split_two :
    (c : ℕ) (s t : List ℕ)
    → has_char c s ≡ false
    → has_char c t ≡ false
    → split c (s ++ (c ∷ t)) ≡ s ∷ t ∷ []
unfolding split
split_two c [] t hs ht = ground (arith, split_none c t ht)
split_two c (d ∷ s) t hs ht = ground (arith, split_two c s t)

has_char_digits : (c : ℕ) (s : List ℕ) → b'9' < c → All IsDigit s → has_char c s ≡ false
has_char_digits c [] h hs = refl
has_char_digits c (d ∷ s) h hs = ground (arith, has_char_digits c s h hs.1)

pub has_char-print : (c n : ℕ) → b'9' < c → has_char c (print n) ≡ false
unfolding print
has_char-print c n h = has_char_digits c (print_fuel n n) h (print_fuel-digits n n)
