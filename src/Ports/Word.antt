-- ===== src/Ports/Word.antt =====
-- src/allocation.rs, `PortAllocator::allocate`: which bit of a word is chosen, whatever values the
-- other threads put there in between.
use miuturn.Common.{
  ℕ, ◌+◌, ◌-◌, ◌*◌, ◌^◌, ◌<◌, ◌≡◌, List, [], ◌∷◌, none, some, inl, inr, ◌≢◌, All, bit_and, ◌==◌,
  Option-cases, Bool-cases, arith,
}
use miuturn.Common.TestBit.{
  bit, bit_complement, bit_max, mask_iff, trailing_zeros, trailing_zeros-IsLowest,
}
use miuturn.Ports.Bitmap.{word_max, lowest_free, fallback, choose}

-- The bit is free in the word that the exchange replaces, and its port is in range.
abbrev pub IsFree : ℕ → ℕ → ℕ → ℕ → Type 0
IsFree port_count actual_idx bit_index current =
    (bit_index < 64)
    × (bit bit_index current ≡ 0)
    × (actual_idx * 64 + bit_index < port_count)
    × (current < 2 ^ 64)

random_free :
    (current k : ℕ)
    → current < 2 ^ 64
    → k < 64
    → bit_and (word_max - current) (2 ^ k) ≢ 0
    → bit k current ≡ 0
random_free current k h hk e =
    let (to, from) = mask_iff k (word_max - current) in
    let set : bit k (word_max - current) ≢ 0 = λ q. e (from q) in
    omega (arith, set, bit_complement k 64 current hk h)

module _ (port_count actual_idx : ℕ) (small : actual_idx < 1024) where
  lowest_free-IsFree :
      (current b base : ℕ)
      → current < 2 ^ 64
      → lowest_free port_count actual_idx current ≡ some (b, base)
      → IsFree port_count actual_idx b base × (base ≡ current)
  unfolding lowest_free
  lowest_free-IsFree current b base h e =
      let free : ℕ = word_max - current in
      let place : ℕ = trailing_zeros 64 free in
      ground (arith, trailing_zeros-IsLowest 64 free (omega arith), bit_complement place 64 current)

  lowest_free-none :
      (current k : ℕ)
      → current < 2 ^ 64
      → k < 64
      → actual_idx * 64 + k < port_count
      → lowest_free port_count actual_idx current ≡ none
      → bit k current ≡ 1
  unfolding lowest_free
  lowest_free-none current k h hk hi e =
      let free : ℕ = word_max - current in
      let place : ℕ = trailing_zeros 64 free in
      elim (Bool-cases (free == 0)) [
        | inl full ↦ let whole : current ≡ word_max = ground arith in rw whole (bit_max k 64 hk)
        | inr some_free ↦
            let low = trailing_zeros-IsLowest 64 free (omega arith) (ground arith) in
            let before : k < place = ground (arith, low.0) in
            omega (arith, low.2 k before, bit_complement k 64 current)
      ]

  fallback-IsFree :
      (observed : List ℕ) (current b base : ℕ)
      → current < 2 ^ 64
      → All (λ w. w < 2 ^ 64) observed
      → fallback port_count actual_idx observed current ≡ some (b, base)
      → IsFree port_count actual_idx b base
  unfolding fallback
  fallback-IsFree [] current b base h hs e = (lowest_free-IsFree current b base h e).0
  fallback-IsFree (o ∷ observed) current b base h hs e =
      elim (Option-cases (lowest_free port_count actual_idx current)) [
        | inl q ↦ absurd (ground (arith, q))
        | inr (c, q) ↦ fallback-IsFree observed o b base hs.0 hs.1 (ground (arith, q))
      ]

  -- Whatever values other threads leave in the word while the exchanges fail, the exchange that
  -- succeeds sets a bit that was free in the word it replaces, of a port in range.
  pub choose-IsFree :
      (random_bit : ℕ) (observed : List ℕ) (current b base : ℕ)
      → random_bit < 64
      → current < 2 ^ 64
      → All (λ w. w < 2 ^ 64) observed
      → choose port_count actual_idx random_bit observed current ≡ some (b, base)
      → IsFree port_count actual_idx b base
  unfolding choose
  choose-IsFree random_bit [] current b base r h hs e =
      ground (arith, random_free current random_bit, fallback-IsFree [] current b base)
  choose-IsFree random_bit (o ∷ observed) current b base r h hs e =
      ground
        (arith, fallback-IsFree (o ∷ observed) current b base, fallback-IsFree observed o b base)

  -- Alone, a round that chooses nothing has met a word whose ports in range are all taken.
  pub choose-none :
      (random_bit current k : ℕ)
      → current < 2 ^ 64
      → k < 64
      → actual_idx * 64 + k < port_count
      → choose port_count actual_idx random_bit [] current ≡ none
      → bit k current ≡ 1
  unfolding choose fallback
  choose-none random_bit current k h hk hi e = elim (Bool-cases (current == word_max)) [
    | inl full ↦ let whole : current ≡ word_max = ground arith in rw whole (bit_max k 64 hk)
    | inr other ↦ ground (arith, other, lowest_free-none current k h hk hi)
  ]

  pub choose-current :
      (random_bit current b base : ℕ)
      → current < 2 ^ 64
      → choose port_count actual_idx random_bit [] current ≡ some (b, base)
      → base ≡ current
  unfolding choose fallback
  choose-current random_bit current b base h e = ground (arith, lowest_free-IsFree current b base h)
