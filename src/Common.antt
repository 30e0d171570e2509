-- ===== src/Common.antt =====
-- Names that the other modules share: the libraries', passed on, and those of the children.
mod Tests
mod Lists
mod Bits
pub mod TestBit
pub mod Map
pub mod Texts
pub mod Decimal
pub use Tests.*
pub use Lists.*
pub use Bits.*
pub use Prim.Native.Nat.{ℕ, zero, suc, ◌+◌, ◌-◌, ◌*◌, ◌/◌, ◌%◌, ◌^◌, ◌≤◌, ◌<◌, min}
pub use Prim.Native.Nat.{bit_and, bit_or, bit_xor}
pub use mathlib.Core.Path.{◌≡◌, refl, sym, ap, subst, ◌∙◌, fun_ext}
pub use mathlib.Core.Logic.{◌≢◌, ◌↔◌, ◌⊎◌, inl, inr, ite, if_pos, if_neg}
pub use mathlib.Core.Bool.{Bool, true, false, not, ◌&&◌, ◌||◌}
pub use mathlib.Core.Option.{Option, none, some}
pub use mathlib.Core.List.{List, [], ◌∷◌, ◌++◌, map, append_assoc, append-nil}
pub use native.Mathlib.Omega.{arith}
unfoldable pub use native.Mathlib.Decide.{ℕ_discrete}

infixl 5 ◌>>=◌
abbrev pub ◌>>=◌ {ℓ κ} : {A : Type ℓ} {B : Type κ} → Option A → (A → Option B) → Option B
none >>= f = none
some a >>= f = f a

-- A byte, a slice of bytes, and a text as its UTF-8 bytes.
abbrev pub IsByte : ℕ → Type 0
IsByte b = b < 256

abbrev pub Text : Type 0
Text = List ℕ

-- `u16::from_be_bytes`, `put_u16` and `put_u32`.
abbrev pub from_be_u16 : ℕ → ℕ → ℕ
from_be_u16 hi lo = hi * 256 + lo

abbrev pub be_u16 : ℕ → List ℕ
be_u16 x = (x / 256 % 256) ∷ (x % 256) ∷ []

abbrev pub be_u32 : ℕ → List ℕ
be_u32 x = (x / 2 ^ 24 % 256) ∷ (x / 2 ^ 16 % 256) ∷ (x / 256 % 256) ∷ (x % 256) ∷ []

-- `&data[from..to]`, for `from <= to <= data.len()`.
abbrev pub slice {ℓ} : {A : Type ℓ} → List A → ℕ → ℕ → List A
slice xs from to = take (to - from) (drop from xs)

pub be_u16_lem : (x : ℕ) → x < 2 ^ 16 → from_be_u16 (x / 256 % 256) (x % 256) ≡ x
be_u16_lem x h = omega arith
