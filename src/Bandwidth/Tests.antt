-- ===== src/Bandwidth/Tests.antt =====
-- src/bandwidth.rs: the scenarios of its tests, and the theorems at concrete inputs.
use miuturn.Common.{
  ℕ, ◌+◌, ◌<◌, ◌≡◌, refl, List, [], ◌∷◌, none, some, false, Text, arith, ℕ_discrete,
}
use miuturn.Bandwidth.Limiter.{
  BandwidthLimiter, try_consume, tokens_to_add, available_tokens, reset, new,
}
use miuturn.Common.Texts.{Text-discrete}
use miuturn.Bandwidth.Trackers.{
  BandwidthManager, AllocationBandwidthTracker, manager, register_allocation, allocation_tracker,
  limiter_for, try_relay, ask_global, ask_tracker, try_relay_allocation,
}
use miuturn.Bandwidth.Rate.{Balances, run, run-Balances}
use miuturn.Bandwidth.Threads.{starts, returns, interleave}
use miuturn.Bandwidth.Race.{one_by_one, both_read, race_grants_twice}
use miuturn.Bandwidth.Manager.{refused_but_charged}

program : Unit {0}
unfolding try_consume tokens_to_add available_tokens new manager register_allocation
    allocation_tracker limiter_for try_relay ask_global ask_tracker try_relay_allocation
    Text-discrete ℕ_discrete run reset
program = tt

-- A rate of 1000 bytes per second, a burst of 5000.
abbrev limiter : BandwidthLimiter
limiter = record { max_tokens = 5000; tokens = 5000; rate_bytes_per_sec = 1000; last_update = 0 }

abbrev calls : List (ℕ × ℕ)
calls = (0, 3000) ∷ (0, 2000) ∷ (0, 100) ∷ (100_000_000, 100) ∷ []

-- `test_bandwidth_limiter_basic`, with a call after a tenth of a second.
basic : (run limiter calls).1 ≡ 5100
unfolding program
basic = refl

reset_lem : (reset (run limiter calls).0).tokens ≡ 5000
unfolding program
reset_lem = refl

run-Balances_example : Balances limiter (run limiter calls).1 (run limiter calls).0
run-Balances_example = run-Balances limiter calls (omega arith) (omega arith)

abbrev drained : BandwidthLimiter
drained = record limiter { tokens = 0 }

-- Two calls for the 1000 tokens that a second earns.
abbrev emptied : BandwidthLimiter
emptied = record limiter { tokens = 0; last_update = 1_000_000_000 }

race_grants_twice_example :
    (try_consume drained 1_000_000_000 1000 ≡ (emptied, some 0))
    × (try_consume emptied 1_000_000_000 1000 ≡ (emptied, none))
    × (interleave (drained, starts 1_000_000_000 1000, starts 1_000_000_000 1000) one_by_one
        ≡ (emptied, returns (some 0), returns none))
    × (interleave (drained, starts 1_000_000_000 1000, starts 1_000_000_000 1000) both_read
        ≡ (emptied, returns (some 0), returns (some 0)))
    × (1000 < 1000 + 1000)
unfolding tokens_to_add
race_grants_twice_example =
    race_grants_twice drained 1_000_000_000 1000 1000 (omega arith) (omega arith) (omega arith)
      (omega arith)

abbrev east : Text
east = 1 ∷ []

abbrev west : Text
west = 2 ∷ []

-- A global limit of 1000 bytes per second, and 100 for the first of two allocations.
abbrev both : BandwidthManager
both =
    register_allocation (register_allocation (manager (some 1000) 0) east (some 100) 0) west none 0

east_tracker : AllocationBandwidthTracker
east_tracker = allocation_tracker east (some 100) 0

refused_but_charged_example :
    ((try_relay both east 0 2000).1 ≡ false)
    × ((try_relay both east 0 2000).0.global_limiter ≡ (try_consume both.global_limiter 0 2000).0)
    × ((try_relay both east 0 2000).0.global_limiter.tokens ≡ 8000)
unfolding program east_tracker
refused_but_charged_example =
    refused_but_charged both east 0 2000 1000 8000 east_tracker refl refl refl refl
