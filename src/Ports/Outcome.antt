-- ===== src/Ports/Outcome.antt =====
-- src/allocation.rs, `PortAllocator`: the promises of `allocate` and `release`.
use miuturn.Common.{
  ℕ, ◌+◌, ◌-◌, ◌*◌, ◌/◌, ◌%◌, ◌^◌, ◌<◌, ◌≡◌, refl, ap, sym, ◌∙◌, [], Option, none, some, Bool, true,
  false, ◌||◌, ◌&&◌, not, inl, inr, leb, ◌==◌, length, get_or, Option-cases, Bool-cases, arith,
  if◌then◌else◌,
}
use mathlib.Core.Path.{subst₂, subst}
use native.Mathlib.Nat.{mod-eq_of_lt, mod-lt}
use miuturn.Ports.Bitmap.{PortAllocator, port_index, choose, probe, allocate, release, is_allocated}
use miuturn.Ports.Word.{IsFree, choose-none}
use miuturn.Ports.Allocator.{IsBitmap, InRange, is_allocated-taken}
use miuturn.Ports.Effects.{
  marked, cleared, word_lt, probe-IsFree, probe-none, marked-IsBitmap, cleared-IsBitmap,
  is_allocated-marked, is_allocated-cleared,
}

-- A port that was free becomes allocated, and nothing else changes.
pub record Takes (p : PortAllocator) (port : ℕ) (p' : PortAllocator) : Type 0 where
  pub inside : InRange p port
  pub was_free : is_allocated p port ≡ false
  pub others : (q : ℕ) → is_allocated p' q ≡ (q == port || is_allocated p q)
  pub counts : p'.allocated_count ≡ p.allocated_count + 1
  pub same_range : (p'.min_port ≡ p.min_port) × (p'.max_port ≡ p.max_port)
  pub sound : IsBitmap p'

some_words : (p : PortAllocator) → IsBitmap p → 0 < length p.allocated
some_words p v = omega (arith, v.words, v.counted, v.range.0)

marked-Takes :
    (p : PortAllocator) (idx b : ℕ)
    → IsBitmap p
    → idx < length p.allocated
    → IsFree p.port_count idx b (get_or p.allocated idx 0)
    → Takes p (p.min_port + (idx * 64 + b)) (marked p idx b)
marked-Takes p idx b v h (hb, free, inside, small) =
    let port : ℕ = p.min_port + (idx * 64 + b) in
    let within : InRange p port = omega (arith, v.counted) in
    let i : port - p.min_port ≡ idx * 64 + b = omega arith in
    let word : (idx * 64 + b) / 64 ≡ idx = omega arith in
    let place : (idx * 64 + b) % 64 ≡ b = omega arith in
    record {
      inside = within;
      was_free = rw (is_allocated-taken p port v within, i, word, place, free) refl;
      others = is_allocated-marked p v idx b hb inside;
      counts = refl;
      same_range = (refl, refl);
      sound = marked-IsBitmap p v idx b hb inside;
    }

allocate_found :
    (p : PortAllocator) (draw_1 draw_2 idx b current : ℕ)
    → idx < length p.allocated
    → current ≡ get_or p.allocated idx 0
    → IsBitmap p
    → b < 64
    → probe p (draw_1 % length p.allocated) (draw_2 % 2 ^ 32 % 64) (length p.allocated) 0
      ≡ some (idx, b, current)
    → allocate p draw_1 draw_2 ≡ (marked p idx b, some (p.min_port + (idx * 64 + b)))
unfolding allocate
allocate_found p draw_1 draw_2 idx b current h same v hb q =
    let index : port_index idx b ≡ idx * 64 + b = omega (arith, v.words, v.fits) in
    ground (arith, q, same, index)

-- A port that `allocate` returns lies in the range, was free, and is now allocated; every other
-- port is as it was.
pub allocate-Takes :
    (p : PortAllocator) (draw_1 draw_2 port : ℕ)
    → IsBitmap p
    → (allocate p draw_1 draw_2).1 ≡ some port
    → Takes p port (allocate p draw_1 draw_2).0
allocate-Takes p draw_1 draw_2 port v e =
    let n : ℕ = length p.allocated in
    let start : ℕ = draw_1 % n in
    let offset : ℕ = draw_2 % 2 ^ 32 % 64 in
    elim (Option-cases (probe p start offset n 0)) [
      | inl q ↦ absurd (unfold allocate in ground (arith, q))
      | inr ((idx, b, current), q) ↦
          let (h, same, free) =
            probe-IsFree p start offset n 0 idx b current v (some_words p v) q in
          let r = allocate_found p draw_1 draw_2 idx b current h same v free.0 q in
          let here : p.min_port + (idx * 64 + b) ≡ port =
            ground (arith, ap (λ (x : PortAllocator × Option ℕ). x.1) r, e) in
          subst₂ (λ x y. Takes p x y) here (ap (λ (x : PortAllocator × Option ℕ). x.0) (sym r))
            (marked-Takes p idx b v h (subst (IsFree p.port_count idx b) same free))
    ]

-- The round that looks at a given word.
round_of : (start idx n : ℕ) → start < n → idx < n → (k : ℕ) × (k < n) × ((start + k) % n ≡ idx)
round_of start idx n h hi = elim (Bool-cases (leb start idx)) [
  | inl le ↦ (idx - start, ground arith, ap (λ x. x % n) (ground arith) ∙ mod-eq_of_lt hi)
  | inr gt ↦ (idx + n - start, ground arith, ap (λ x. x % n) (ground arith) ∙ wrapped)
]
  where
    wrapped : (idx + n) % n ≡ idx
    wrapped = grind arith

-- `allocate` fails only when every port of the range is allocated, and then changes nothing.
pub allocate-none :
    (p : PortAllocator) (draw_1 draw_2 : ℕ)
    → IsBitmap p
    → (allocate p draw_1 draw_2).1 ≡ none
    → ((allocate p draw_1 draw_2).0 ≡ p)
      × ((port : ℕ) → InRange p port → is_allocated p port ≡ true)
unfolding allocate
allocate-none p draw_1 draw_2 v e = elim (Option-cases (probe p start offset n 0)) [
  | inr (c, q) ↦ absurd (ground (arith, q))
  | inl q ↦ (ground (arith, q), full q)
]
  where
    n : ℕ
    n = length p.allocated

    start : ℕ
    start = draw_1 % n

    offset : ℕ
    offset = draw_2 % 2 ^ 32 % 64

    full :
        probe p start offset n 0 ≡ none → (port : ℕ) → InRange p port → is_allocated p port ≡ true
    full q port inside =
        let i : ℕ = port - p.min_port in
        let idx : ℕ = i / 64 in
        let idx_in : idx < n = omega (arith, v.words, v.counted) in
        let start_in : start < n = mod-lt draw_1 (some_words p v) in
        let (k, k_in, here) = round_of start idx n start_in idx_in in
        let nothing =
          subst (λ j. choose p.port_count j ((offset + k) % 64) [] (get_or p.allocated j 0) ≡ none)
            here (probe-none p start offset n 0 k q (omega arith) (omega arith)) in
        let one =
          choose-none p.port_count idx (omega (arith, v.words, v.fits)) ((offset + k) % 64)
            (get_or p.allocated idx 0) (i % 64) (word_lt p idx v idx_in) (omega arith)
            (omega (arith, v.counted)) nothing in
        rw (is_allocated-taken p port v inside, one) refl

release_taken :
    (p : PortAllocator) (port : ℕ)
    → is_allocated p port ≡ true
    → InRange p port
      × (release p port ≡ (cleared p ((port - p.min_port) / 64) ((port - p.min_port) % 64), true))
unfolding release is_allocated
release_taken p port e = ground arith

release_free :
    (p : PortAllocator) (port : ℕ) → is_allocated p port ≡ false → release p port ≡ (p, false)
unfolding release is_allocated
release_free p port e = ground arith

-- What `release` promises: the answer tells whether the port was allocated, the port is free
-- afterwards, every other port is as it was, and the count falls by one if the answer is true.
pub record Frees (p : PortAllocator) (port : ℕ) (r : PortAllocator × Bool) : Type 0 where
  pub answer : r.1 ≡ is_allocated p port
  pub others : (q : ℕ) → is_allocated r.0 q ≡ (not (q == port) && is_allocated p q)
  pub counts :
      (r.0).allocated_count
      ≡ (if is_allocated p port then p.allocated_count - 1 else p.allocated_count)
  pub same_range : ((r.0).min_port ≡ p.min_port) × ((r.0).max_port ≡ p.max_port)
  pub sound : IsBitmap (r.0)

cleared-Frees :
    (p : PortAllocator) (port : ℕ)
    → IsBitmap p
    → InRange p port
    → is_allocated p port ≡ true
    → Frees p port (cleared p ((port - p.min_port) / 64) ((port - p.min_port) % 64), true)
cleared-Frees p port v inside e =
    let i : ℕ = port - p.min_port in
    let split : i / 64 * 64 + i % 64 < p.port_count = omega (arith, v.counted) in
    let whole : p.min_port + (i / 64 * 64 + i % 64) ≡ port = omega arith in
    record {
      answer = sym e;
      others = λ q.
          is_allocated-cleared p v (i / 64) (i % 64) (omega arith) split q
          ∙ ap (λ k. not (q == k) && is_allocated p q) whole;
      counts = rw e refl;
      same_range = (refl, refl);
      sound = cleared-IsBitmap p v (i / 64) (i % 64) (omega arith) split;
    }

free-Frees :
    (p : PortAllocator) (port : ℕ)
    → IsBitmap p
    → is_allocated p port ≡ false
    → Frees p port (p, false)
free-Frees p port v e = record {
  answer = sym e;
  others = λ q. ground (arith, e, λ (h : q ≡ port). ap (is_allocated p) h);
  counts = rw e refl;
  same_range = (refl, refl);
  sound = v;
}

-- On every port, in or out of range, `release` does what `Frees` says.
pub release-Frees : (p : PortAllocator) (port : ℕ) → IsBitmap p → Frees p port (release p port)
release-Frees p port v = elim (Bool-cases (is_allocated p port)) [
  | inl e ↦
      let (inside, r) = release_taken p port e in
      subst (Frees p port) (sym r) (cleared-Frees p port v inside e)
  | inr e ↦ subst (Frees p port) (sym (release_free p port e)) (free-Frees p port v e)
]
