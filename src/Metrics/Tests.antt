-- ===== src/Metrics/Tests.antt =====
-- Runs of src/metrics.rs, and the theorem applied to them.
use miuturn.Common.{◌≡◌, refl, List, [], ◌∷◌, true, false, arith}
use miuturn.Metrics.{
  Call, allocation, allocation_dropped, bytes_relayed, request, channel_bind, run, step, new,
  record_allocation, record_allocation_dropped, record_bytes_relayed, record_request,
  record_channel_bind,
}
use miuturn.Metrics.Counts.{Counts, count_calls, is_request, is_allocation, is_bind, run-Counts}

abbrev calls : List Call
calls =
    allocation
    ∷ request true 5000000 false
    ∷ request false 7000000 true
    ∷ allocation_dropped
    ∷ allocation_dropped
    ∷ bytes_relayed 1024
    ∷ channel_bind
    ∷ []

last_duration : (run (new 0) calls).last_request_duration_ms ≡ 7
unfolding run step new record_allocation record_allocation_dropped record_bytes_relayed
    record_request record_channel_bind
last_duration = refl

run-Counts_example :
    Counts
      (run (new 0) calls)
      (count_calls is_request calls)
      (count_calls is_allocation calls)
      (count_calls is_bind calls)
run-Counts_example = run-Counts 0 calls (omega arith)
