-- ===== src/Ports/Calls.antt =====
-- src/allocation.rs, `PortAllocator`: any sequence of calls on a new allocator.
use miuturn.Common.{
  ℕ, zero, suc, ◌+◌, ◌-◌, ◌/◌, ◌≤◌, ◌<◌, ◌^◌, ◌%◌, ◌≡◌, refl, sym, List, [], ◌∷◌, false, replicate,
  get_or, inl, inr, Option-cases, arith,
}
use miuturn.Common.TestBit.{bit-zero, mask_iff}
use mathlib.Core.Path.{subst}
use miuturn.Ports.Bitmap.{PortAllocator, new, allocate, release, is_allocated}
use miuturn.Ports.Outcome.{allocate-Takes, allocate-none, release-Frees}
use miuturn.Ports.Count.{IsValid, none_pass, Takes-IsValid, Frees-IsValid, new-IsBitmap}

-- A call of the allocator: `allocate` with its two draws, or `release` of a port.
pub data Call : Type 0 where
  take : ℕ → ℕ → Call
  give_back : ℕ → Call

unfoldable pub step : PortAllocator → Call → PortAllocator
step p (take draw_1 draw_2) = (allocate p draw_1 draw_2).0
step p (give_back port) = (release p port).0

unfoldable pub run : PortAllocator → List Call → PortAllocator
run p [] = p
run p (c ∷ calls) = run (step p c) calls

blank : (n i : ℕ) → get_or (replicate {A = ℕ} n 0) i 0 ≡ zero
blank zero i = refl
blank (suc n) zero = refl
blank (suc n) (suc i) = blank n i

pub new_free : (min_port max_port port : ℕ) → is_allocated (new min_port max_port) port ≡ false
unfolding new is_allocated
new_free min_port max_port port =
    let n : ℕ = (max_port + 2 ^ 16 - min_port + 1) % 2 ^ 16 in
    let i : ℕ = port - min_port in
    ground (arith, blank ((n + 63) / 64) (i / 64), mask_iff (i % 64) 0, bit-zero (i % 64))

pub new-IsValid :
    (min_port max_port : ℕ)
    → min_port ≤ max_port
    → max_port < 2 ^ 16
    → max_port - min_port < 2 ^ 16 - 1
    → IsValid (new min_port max_port)
unfolding new
new-IsValid min_port max_port h hm hr = record {
  bitmap = new-IsBitmap min_port max_port h hm hr;
  tally = sym (none_pass _ _ (λ i. new_free min_port max_port _));
}

pub step-IsValid : (p : PortAllocator) (c : Call) → IsValid p → IsValid (step p c)
unfolding step
step-IsValid p (take draw_1 draw_2) v = elim (Option-cases (allocate p draw_1 draw_2).1) [
  | inl q ↦ subst IsValid (sym (allocate-none p draw_1 draw_2 v.bitmap q).0) v
  | inr (port, q) ↦
      Takes-IsValid p (allocate p draw_1 draw_2).0 port v
        (allocate-Takes p draw_1 draw_2 port v.bitmap q)
]
step-IsValid p (give_back port) v =
    Frees-IsValid p (release p port).0 port v (release p port).1 (release-Frees p port v.bitmap)

keeps : (p : PortAllocator) (calls : List Call) → IsValid p → IsValid (run p calls)
unfolding run
keeps p [] v = v
keeps p (c ∷ calls) v = keeps (step p c) calls (step-IsValid p c v)

-- Whatever calls a new allocator receives, its counter is the number of ports that are allocated
-- and the bitmap keeps its shape. The range is not empty and not all the 2 ^ 16 ports.
pub run-IsValid :
    (min_port max_port : ℕ) (calls : List Call)
    → min_port ≤ max_port
    → max_port < 2 ^ 16
    → max_port - min_port < 2 ^ 16 - 1
    → IsValid (run (new min_port max_port) calls)
run-IsValid min_port max_port calls h hm hr =
    keeps (new min_port max_port) calls (new-IsValid min_port max_port h hm hr)
