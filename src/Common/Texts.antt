-- ===== src/Common/Texts.antt =====
-- Texts as lists of bytes, with what the standard library does: equality, `split`, `parse` of an
-- unsigned number and its decimal print.
use Prim.Native.Nat.{ℕ, zero, suc, ◌+◌, ◌-◌, ◌*◌, ◌/◌, ◌%◌}
use Prim.Native.Char.{code}
use Prim.Native.String.{String}
use mathlib.Core.Bool.{Bool, true, false, ◌||◌}
use mathlib.Core.List.{List, [], ◌∷◌, ◌++◌}
use mathlib.Core.Option.{Option, none, some}
use native.Mathlib.Decide.{ℕ_discrete}
use miuturn.Common.Tests.{ltb, leb, ◌==◌, if◌then◌else◌}

-- The bytes of an ASCII literal.
abbrev pub codes : String → List ℕ
codes String.[] = []
codes (String.◌∷◌ c s) = code c ∷ codes s

unfoldable pub Text-discrete : Discrete (List ℕ)
Text-discrete = hlevel ℕ_discrete

-- `==` on texts.
abbrev pub same_text : List ℕ → List ℕ → Bool
same_text s t = elim (Text-discrete s t) [ yes e ↦ true | no e ↦ false ]

abbrev pub is_empty : List ℕ → Bool
is_empty [] = true
is_empty (c ∷ s) = false

-- `contains`, for a character.
abbrev pub has_char : ℕ → List ℕ → Bool
has_char c [] = false
has_char c (d ∷ s) = d == c || has_char c s

abbrev pub onto_first : ℕ → List (List ℕ) → List (List ℕ)
onto_first c [] = (c ∷ []) ∷ []
onto_first c (p ∷ parts) = (c ∷ p) ∷ parts

-- `split`, for a character: one part more than it occurs.
unfoldable pub split : ℕ → List ℕ → List (List ℕ)
split c [] = [] ∷ []
split c (d ∷ s) = let parts = split c s in if d == c then [] ∷ parts else onto_first d parts

-- The digits of a number below `limit`, after the value of those already read.
unfoldable pub digits : ℕ → ℕ → List ℕ → Option ℕ
digits limit n [] = some n
digits limit n (c ∷ s) =
    if ltb c b'0' || ltb b'9' c
    then none
    else if leb limit (n * 10 + (c - b'0'))
    then none
    else digits limit (n * 10 + (c - b'0')) s

-- `parse` into an unsigned type with `limit` values. A plus sign may stand before the digits.
unfoldable pub parse_unsigned : ℕ → List ℕ → Option ℕ
unfolding digits
parse_unsigned limit [] = none
parse_unsigned limit (c ∷ []) = digits limit 0 (c ∷ [])
parse_unsigned limit (c ∷ d ∷ s) =
    if c == b'+' then digits limit 0 (d ∷ s) else digits limit 0 (c ∷ d ∷ s)

-- The decimal print. Each step takes a digit, so the number itself is fuel enough.
unfoldable pub print_fuel : ℕ → ℕ → List ℕ
print_fuel zero n = (b'0' + n % 10) ∷ []
print_fuel (suc fuel) n = elim (ltb n 10) [
  | true ↦ (b'0' + n) ∷ []
  | false ↦ print_fuel fuel (n / 10) ++ (b'0' + n % 10) ∷ []
]

unfoldable pub print : ℕ → List ℕ
unfolding print_fuel
print n = print_fuel n n
