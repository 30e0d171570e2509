-- ===== src/Ports/Tests.antt =====
-- Runs of the allocator of src/allocation.rs over a few ports, and the theorems applied to them.
use miuturn.Common.{ℕ, ◌≡◌, refl, [], ◌∷◌, none, some, true, false, arith}
use miuturn.Common.TestBit.{trailing_zeros}
use miuturn.Ports.Bitmap.{
  PortAllocator, new, choose, fallback, lowest_free, probe, allocate, release, is_allocated,
  available_count,
}
use miuturn.Ports.Allocator.{InRange}
use miuturn.Ports.Outcome.{Takes, Frees, allocate-Takes, allocate-none, release-Frees}
use miuturn.Ports.Count.{IsValid}
use miuturn.Ports.Calls.{take, give_back, run, step, run-IsValid, step-IsValid, new-IsValid}

-- Two ports, 49152 and 49153.
abbrev two_ports : PortAllocator
two_ports = new 49152 49153

two_ports-IsValid : IsValid two_ports
two_ports-IsValid = new-IsValid 49152 49153 (omega arith) (omega arith) (omega arith)

abbrev one_left : PortAllocator
one_left = step two_ports (take 0 0)

abbrev full : PortAllocator
full = step one_left (take 5 7)

one_left-IsValid : IsValid one_left
one_left-IsValid = step-IsValid two_ports (take 0 0) two_ports-IsValid

full-IsValid : IsValid full
full-IsValid = step-IsValid one_left (take 5 7) one_left-IsValid

first_port : (allocate two_ports 0 0).1 ≡ some 49152
unfolding allocate probe choose new
first_port = refl

second_port : (allocate one_left 5 7).1 ≡ some 49153
unfolding allocate probe choose fallback lowest_free trailing_zeros new step
second_port = refl

no_port : (allocate full 1 2).1 ≡ none
unfolding allocate probe choose fallback lowest_free trailing_zeros new step
no_port = refl

released_once : ((release full 49152).1 ≡ true) × ((release (release full 49152).0 49152).1 ≡ false)
unfolding allocate probe choose fallback lowest_free trailing_zeros new step release
released_once = (refl, refl)

none_available : available_count full ≡ 0
unfolding available_count allocate probe choose fallback lowest_free trailing_zeros new step
none_available = refl

-- Two exchanges fail: bit 3, then bit 0 are taken by others; bit 1 is left.
contended : choose 64 0 3 (8 ∷ 9 ∷ []) 0 ≡ some (1, 9)
unfolding choose fallback lowest_free trailing_zeros
contended = refl

allocate-Takes_example : Takes one_left 49153 (allocate one_left 5 7).0
allocate-Takes_example = allocate-Takes one_left 5 7 49153 one_left-IsValid.bitmap second_port

allocate-none_example :
    ((allocate full 1 2).0 ≡ full)
    × ((port : ℕ) → InRange full port → is_allocated full port ≡ true)
allocate-none_example = allocate-none full 1 2 full-IsValid.bitmap no_port

release-Frees_example : Frees full 49152 (release full 49152)
release-Frees_example = release-Frees full 49152 full-IsValid.bitmap

run-IsValid_example :
    IsValid (run (new 49152 49300) (take 1 2 ∷ take 3 4 ∷ give_back 49152 ∷ take 9 9 ∷ []))
run-IsValid_example =
    run-IsValid 49152 49300 (take 1 2 ∷ take 3 4 ∷ give_back 49152 ∷ take 9 9 ∷ []) (omega arith)
      (omega arith) (omega arith)
