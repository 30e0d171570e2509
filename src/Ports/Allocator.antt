-- ===== src/Ports/Allocator.antt =====
-- src/allocation.rs, `PortAllocator`: what `allocate` and `release` do to the ports.
use miuturn.Common.{
  ℕ, ◌+◌, ◌-◌, ◌*◌, ◌/◌, ◌%◌, ◌^◌, ◌≤◌, ◌<◌, ◌≡◌, refl, ap, sym, List, All, bit_and, bit_or, ◌==◌,
  length, get_or, set, get_or-set_self, get_or-set_ne, arith, if◌then◌else◌, ℕ_discrete, ==_refl,
}
use miuturn.Common.TestBit.{
  bit, bit-le-one, bit_complement, bit-bit_or, bit-bit_and, bit-pow_self, bit-pow_ne, mask_iff,
  two_pow_lt,
}
use miuturn.Ports.Bitmap.{PortAllocator, word_max, is_allocated}

-- The digit of the bitmap for a port index.
abbrev pub taken : List ℕ → ℕ → ℕ
taken words i = bit (i % 64) (get_or words (i / 64) 0)

-- A range of ports that is not empty and not all of them, with a word for each 64.
pub record IsBitmap (p : PortAllocator) : Type 0 where
  pub range : (p.min_port ≤ p.max_port) × (p.max_port < 2 ^ 16)
  pub counted : p.port_count + p.min_port ≡ p.max_port + 1
  pub fits : p.port_count < 2 ^ 16
  pub words : length p.allocated ≡ (p.port_count + 63) / 64
  pub bounded : All (λ w. w < 2 ^ 64) p.allocated

abbrev pub InRange : PortAllocator → ℕ → Type 0
InRange p port = (p.min_port ≤ port) × (port ≤ p.max_port)

taken-set :
    (words : List ℕ) (idx w i : ℕ)
    → idx < length words
    → taken (set words idx w) i ≡ (if i / 64 == idx then bit (i % 64) w else taken words i)
taken-set words idx w i h = elim (ℕ_discrete (i / 64) idx) [
  | yes e ↦ rw (e, get_or-set_self words idx w 0 h, ==_refl idx) refl
  | no n ↦ ground (arith, ap (bit (i % 64)) (get_or-set_ne words idx (i / 64) w 0 (λ q. n (sym q))))
]

bit_set : (j b x : ℕ) → bit j (bit_or x (2 ^ b)) ≡ (if j == b then 1 else bit j x)
bit_set j b x = elim (ℕ_discrete j b) [
  | yes e ↦ rw e (ground (arith, bit-bit_or b x (2 ^ b), bit-pow_self b, bit-le-one b x))
  | no n ↦ ground (arith, bit-bit_or j x (2 ^ b), bit-pow_ne j b n)
]

bit_clear :
    (j b x : ℕ)
    → j < 64
    → b < 64
    → bit j (bit_and x (word_max - 2 ^ b)) ≡ (if j == b then 0 else bit j x)
bit_clear j b x hj hb =
    let rest = bit_complement j 64 (2 ^ b) hj (two_pow_lt b 64 hb) in
    let both = bit-bit_and j x (word_max - 2 ^ b) in
    elim (ℕ_discrete j b) [
      | yes e ↦ ground (arith, rest, both, e, ap (λ k. bit k (2 ^ b)) e, bit-pow_self b)
      | no n ↦ ground (arith, rest, both, bit-pow_ne j b n, bit-le-one j x)
    ]

module _ (words : List ℕ) (idx b i : ℕ) (h : idx < length words) (hb : b < 64) where
  pub taken_after_set :
      taken (set words idx (bit_or (get_or words idx 0) (2 ^ b))) i
      ≡ (if i == idx * 64 + b then 1 else taken words i)
  taken_after_set =
      let cur : ℕ = get_or words idx 0 in
      ground (
        arith,
        taken-set words idx (bit_or cur (2 ^ b)) i h,
        bit_set (i % 64) b cur,
        λ (e : i / 64 ≡ idx). ap (λ k. bit (i % 64) (get_or words k 0)) e,
      )

  pub taken_after_clear :
      taken (set words idx (bit_and (get_or words idx 0) (word_max - 2 ^ b))) i
      ≡ (if i == idx * 64 + b then 0 else taken words i)
  taken_after_clear =
      let cur : ℕ = get_or words idx 0 in
      ground (
        arith,
        taken-set words idx (bit_and cur (word_max - 2 ^ b)) i h,
        bit_clear (i % 64) b cur,
        λ (e : i / 64 ≡ idx). ap (λ k. bit (i % 64) (get_or words k 0)) e,
      )

-- `is_allocated` reads the digit, and is false out of range.
pub is_allocated-taken :
    (p : PortAllocator) (port : ℕ)
    → IsBitmap p
    → InRange p port
    → is_allocated p port ≡ (taken p.allocated (port - p.min_port) == 1)
unfolding is_allocated
is_allocated-taken p port v h =
    let i : ℕ = port - p.min_port in
    let word : ℕ = get_or p.allocated (i / 64) 0 in
    ground (arith, v.words, v.counted, mask_iff (i % 64) word, bit-le-one (i % 64) word)
