-- ===== src/Ports/Count.antt =====
-- src/allocation.rs, `PortAllocator`: the counter is the number of allocated ports, after any calls.
use miuturn.Common.{
  ℕ, zero, suc, ◌+◌, ◌-◌, ◌/◌, ◌≤◌, ◌<◌, ◌^◌, ◌%◌, ◌≡◌, refl, ap, ◌∙◌, Bool, true, false, ◌||◌,
  ◌&&◌, not, ◌==◌, if◌then◌else◌, All, replicate, length-replicate, inl, inr, Bool-cases, arith,
  ℕ_discrete,
}
use miuturn.Ports.Bitmap.{PortAllocator, new, is_allocated}
use miuturn.Ports.Allocator.{IsBitmap, InRange}
use miuturn.Ports.Outcome.{Takes, Frees}

-- How many numbers below `n` pass a test.
pub number : (ℕ → Bool) → ℕ → ℕ
number f zero = 0
number f (suc n) = (if f n then 1 else 0) + number f n

number_same : (f g : ℕ → Bool) (n : ℕ) → ((i : ℕ) → i < n → f i ≡ g i) → number f n ≡ number g n
unfolding number
number_same f g zero h = refl
number_same f g (suc n) h =
    ground (arith, h n (omega arith), number_same f g n (λ i p. h i (omega arith)))

-- No number passes.
pub none_pass : (f : ℕ → Bool) (n : ℕ) → ((i : ℕ) → f i ≡ false) → number f n ≡ 0
unfolding number
none_pass f zero h = refl
none_pass f (suc n) h = ground (arith, h n, none_pass f n h)

number_plus_one :
    (f g : ℕ → Bool) (k n : ℕ)
    → k < n
    → f k ≡ false
    → ((i : ℕ) → g i ≡ (i == k || f i))
    → number g n ≡ number f n + 1
unfolding number
number_plus_one f g k zero h z e = absurd (omega arith)
number_plus_one f g k (suc n) h z e = elim (ℕ_discrete n k) [
  | yes q ↦
      let same : number g n ≡ number f n = number_same g f n (λ i p. ground (arith, e i, q)) in
      ground (arith, e n, q, ap f q, same)
  | no q ↦ ground (arith, e n, number_plus_one f g k n (omega arith) z e)
]

-- The ports of the range that are allocated.
abbrev pub allocated_ports : PortAllocator → ℕ
allocated_ports p = number (λ i. is_allocated p (p.min_port + i)) p.port_count

pub record IsValid (p : PortAllocator) : Type 0 where
  pub bitmap : IsBitmap p
  pub tally : p.allocated_count ≡ allocated_ports p

same_count :
    {p p' : PortAllocator}
    → IsBitmap p
    → IsBitmap p'
    → (p'.min_port ≡ p.min_port) × (p'.max_port ≡ p.max_port)
    → p'.port_count ≡ p.port_count
same_count v v' e = omega (arith, v.counted, v'.counted)

allocated_inside : (p : PortAllocator) (port : ℕ) → is_allocated p port ≡ true → InRange p port
unfolding is_allocated
allocated_inside p port e = ground arith

module _ (p p' : PortAllocator) (port : ℕ) (v : IsValid p) where
  f : ℕ → Bool
  f i = is_allocated p (p.min_port + i)

  g : ℕ → Bool
  g i = is_allocated p' (p'.min_port + i)

  k : ℕ
  k = port - p.min_port

  g_lem : p'.min_port ≡ p.min_port → (i : ℕ) → g i ≡ is_allocated p' (p.min_port + i)
  unfolding g
  g_lem e i = ap (λ m. is_allocated p' (m + i)) e

  pub Takes-IsValid : Takes p port p' → IsValid p'
  unfolding f g k
  Takes-IsValid t =
      let at_k : p.min_port + k ≡ port = omega (arith, t.inside) in
      let sizes = same_count v.bitmap t.sound t.same_range in
      let point : (i : ℕ) → g i ≡ (i == k || f i) =
        λ i. g_lem t.same_range.0 i ∙ ground (arith, t.others (p.min_port + i), at_k) in
      let more =
        number_plus_one f g k p.port_count (omega (arith, t.inside, v.bitmap.counted))
          (ap (is_allocated p) at_k ∙ t.was_free) point in
      record {
        bitmap = t.sound;
        tally = omega (arith, ap (number g) sizes, more, t.counts, v.tally);
      }

  pub Frees-IsValid : (answer : Bool) → Frees p port (p', answer) → IsValid p'
  unfolding f g k
  Frees-IsValid answer t = elim (Bool-cases (is_allocated p port)) [
    | inr free ↦
        let point : (i : ℕ) → g i ≡ f i = λ i.
          g_lem t.same_range.0 i
          ∙ ground (
            arith,
            t.others (p.min_port + i),
            free,
            λ (e : p.min_port + i ≡ port). ap (is_allocated p) e,
          ) in
        record {
          bitmap = t.sound;
          tally = omega (
            arith,
            ap (number g) (same_count v.bitmap t.sound t.same_range),
            number_same g f p.port_count (λ i h. point i),
            rw free at t.counts,
            v.tally,
          );
        }
    | inl busy ↦
        let inside : InRange p port = allocated_inside p port busy in
        let at_k : p.min_port + k ≡ port = omega (arith, inside) in
        let there : f k ≡ true = ap (is_allocated p) at_k ∙ busy in
        let cleared : (i : ℕ) → g i ≡ (not (i == k) && f i) =
          λ i. g_lem t.same_range.0 i ∙ ground (arith, t.others (p.min_port + i), at_k) in
        let point : (i : ℕ) → f i ≡ (i == k || g i) =
          λ i. ground (arith, cleared i, there, λ (e : i ≡ k). ap f e) in
        let less =
          number_plus_one g f k p.port_count (omega (arith, inside, v.bitmap.counted))
            (ground (arith, cleared k)) point in
        record {
          bitmap = t.sound;
          tally = omega (
            arith,
            ap (number g) (same_count v.bitmap t.sound t.same_range),
            less,
            rw busy at t.counts,
            v.tally,
          );
        }
  ]

-- A new allocator over a range that is neither empty nor everything is valid, with no port taken.
pub new-IsBitmap :
    (min_port max_port : ℕ)
    → min_port ≤ max_port
    → max_port < 2 ^ 16
    → max_port - min_port < 2 ^ 16 - 1
    → IsBitmap (new min_port max_port)
unfolding new
new-IsBitmap min_port max_port h hm hr = record {
  range = (h, hm);
  counted = omega arith;
  fits = omega arith;
  words = length-replicate {A = ℕ} _ 0;
  bounded = zeros (((max_port + 2 ^ 16 - min_port + 1) % 2 ^ 16 + 63) / 64);
}
  where
    zeros : (n : ℕ) → All (λ w. w < 2 ^ 64) (replicate n 0)
    zeros zero = tt
    zeros (suc n) = (omega arith, zeros n)
