-- ===== src/Ports/Effects.antt =====
-- src/allocation.rs, `PortAllocator`: `allocate` hands out a free port of the range, and fails only
-- when there is none; `release` frees an allocated port; neither touches another port.
use miuturn.Common.{
  ℕ, zero, suc, ◌+◌, ◌-◌, ◌*◌, ◌%◌, ◌^◌, ◌≤◌, ◌<◌, ◌≡◌, ◌∙◌, [], none, some, false, ◌||◌, ◌&&◌, not,
  ◌⊎◌, inl, inr, bit_and, bit_or, ◌==◌, length, get_or, set, length-set, subst, ℕ_discrete,
  All-get_or, All-set, Option-cases, arith,
}
use miuturn.Common.TestBit.{bit_or_lt, bit_and_le, two_pow_lt}
use native.Mathlib.Nat.{le_refl}
use miuturn.Ports.Bitmap.{PortAllocator, word_max, choose, probe, is_allocated}
use miuturn.Ports.Word.{IsFree, choose-IsFree, choose-current}
use miuturn.Ports.Allocator.{
  IsBitmap, InRange, taken_after_set, taken_after_clear, is_allocated-taken,
}

pub word_lt :
    (p : PortAllocator) (i : ℕ)
    → IsBitmap p
    → i < length p.allocated
    → get_or p.allocated i 0 < 2 ^ 64
word_lt p i v h = All-get_or (λ w. w < 2 ^ 64) p.allocated i 0 v.bounded h

-- A probe that finds something has found a free bit of a word of the bitmap.
pub probe-IsFree :
    (p : PortAllocator) (start offset rounds round idx b current : ℕ)
    → IsBitmap p
    → 0 < length p.allocated
    → probe p start offset rounds round ≡ some (idx, b, current)
    → (idx < length p.allocated)
      × (current ≡ get_or p.allocated idx 0)
      × IsFree p.port_count idx b current
unfolding probe
probe-IsFree p start offset zero round idx b current v h e = cc
probe-IsFree p start offset (suc rounds) round idx b current v h e =
    let n : ℕ = length p.allocated in
    let i : ℕ = (start + round) % n in
    let word : ℕ = get_or p.allocated i 0 in
    let inside : i < n = grind arith in
    let random : ℕ = (offset + round) % 64 in
    elim (Option-cases (choose p.port_count i random [] word)) [
      | inl q ↦ probe-IsFree p start offset rounds (round + 1) idx b current v h (ground (arith, q))
      | inr ((b', base), q) ↦
          let small : i < 1024 = omega (arith, inside, v.words, v.fits) in
          let free =
            choose-IsFree p.port_count i small random [] word b' base (omega arith)
              (word_lt p i v inside) tt q in
          let same =
            choose-current p.port_count i small random word b' base (word_lt p i v inside) q in
          ground (arith, q, free, same, inside)
    ]

-- A probe that finds nothing has met a full word in each round.
pub probe-none :
    (p : PortAllocator) (start offset rounds round k : ℕ)
    → probe p start offset rounds round ≡ none
    → round ≤ k
    → k < round + rounds
    → let i = (start + k) % length p.allocated in
      choose p.port_count i ((offset + k) % 64) [] (get_or p.allocated i 0) ≡ none
unfolding probe
probe-none p start offset zero round k e lo hi = absurd (omega arith)
probe-none p start offset (suc rounds) round k e lo hi =
    let i : ℕ = (start + round) % length p.allocated in
    let random : ℕ = (offset + round) % 64 in
    elim (Option-cases (choose p.port_count i random [] (get_or p.allocated i 0))) [
      | inr (c, q) ↦ absurd (ground (arith, q))
      | inl q ↦ elim (ℕ_discrete round k) [
        | yes here ↦
            subst
              (λ j.
                choose p.port_count ((start + j) % length p.allocated) ((offset + j) % 64) []
                  (get_or p.allocated ((start + j) % length p.allocated) 0)
                ≡ none)
              here q
        | no later ↦
            probe-none p start offset rounds (round + 1) k (ground (arith, q)) (omega arith)
              (omega arith)
      ]
    ]

-- The allocator with a bit set, and with a bit cleared.
abbrev pub marked : PortAllocator → ℕ → ℕ → PortAllocator
marked p idx b = record p {
  allocated = set p.allocated idx (bit_or (get_or p.allocated idx 0) (2 ^ b));
  allocated_count = p.allocated_count + 1;
}

abbrev pub cleared : PortAllocator → ℕ → ℕ → PortAllocator
cleared p idx b = record p {
  allocated = set p.allocated idx (bit_and (get_or p.allocated idx 0) (word_max - 2 ^ b));
  allocated_count = p.allocated_count - 1;
}

pub is_allocated_outside : (p : PortAllocator) (q : ℕ) → ¬ InRange p q → is_allocated p q ≡ false
unfolding is_allocated
is_allocated_outside p q h = ground arith

pub InRange-cases : (p : PortAllocator) (q : ℕ) → InRange p q ⊎ (¬ InRange p q)
InRange-cases p q = ground arith

module _ (p : PortAllocator) (v : IsBitmap p) (idx b : ℕ) (hb : b < 64) where
  module _ (h : idx * 64 + b < p.port_count) where
    pub in_words : idx < length p.allocated
    in_words = omega (arith, v.words)

    pub marked-IsBitmap : IsBitmap (marked p idx b)
    marked-IsBitmap =
        let new_word =
          bit_or_lt 64 (get_or p.allocated idx 0) (2 ^ b) (word_lt p idx v in_words)
            (two_pow_lt b 64 hb) in
        record {
          range = v.range;
          counted = v.counted;
          fits = v.fits;
          words = length-set p.allocated idx _ ∙ v.words;
          bounded = All-set (λ w. w < 2 ^ 64) p.allocated idx _ v.bounded new_word;
        }

    pub cleared-IsBitmap : IsBitmap (cleared p idx b)
    cleared-IsBitmap =
        let old_word : ℕ = get_or p.allocated idx 0 in
        let smaller = bit_and_le old_word old_word (word_max - 2 ^ b) (le_refl old_word) in
        let new_word : bit_and old_word (word_max - 2 ^ b) < 2 ^ 64 =
          omega (arith, smaller, word_lt p idx v in_words) in
        record {
          range = v.range;
          counted = v.counted;
          fits = v.fits;
          words = length-set p.allocated idx _ ∙ v.words;
          bounded = All-set (λ w. w < 2 ^ 64) p.allocated idx _ v.bounded new_word;
        }

    pub is_allocated-marked :
        (q : ℕ)
        → is_allocated (marked p idx b) q ≡ (q == p.min_port + (idx * 64 + b) || is_allocated p q)
    is_allocated-marked q = elim (InRange-cases p q) [
      | inl inside ↦ ground (
        arith,
        v.counted,
        is_allocated-taken (marked p idx b) q marked-IsBitmap inside,
        is_allocated-taken p q v inside,
        taken_after_set p.allocated idx b (q - p.min_port) in_words hb,
      )
      | inr outside ↦ ground (
        arith,
        v.counted,
        is_allocated_outside (marked p idx b) q outside,
        is_allocated_outside p q outside,
      )
    ]

    pub is_allocated-cleared :
        (q : ℕ)
        → is_allocated (cleared p idx b) q
          ≡ (not (q == p.min_port + (idx * 64 + b)) && is_allocated p q)
    is_allocated-cleared q = elim (InRange-cases p q) [
      | inl inside ↦ ground (
        arith,
        v.counted,
        is_allocated-taken (cleared p idx b) q cleared-IsBitmap inside,
        is_allocated-taken p q v inside,
        taken_after_clear p.allocated idx b (q - p.min_port) in_words hb,
      )
      | inr outside ↦ ground (
        arith,
        v.counted,
        is_allocated_outside (cleared p idx b) q outside,
        is_allocated_outside p q outside,
      )
    ]
