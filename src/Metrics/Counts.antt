-- ===== src/Metrics/Counts.antt =====
-- src/metrics.rs: what the counters say of the calls.
use miuturn.Common.{ℕ, ◌+◌, ◌^◌, ◌<◌, ◌≤◌, ◌≡◌, List, [], ◌∷◌, arith, length}
use miuturn.Metrics.{
  MetricsInner, Call, allocation, allocation_dropped, channel_bind, channel_unbind, bytes_relayed,
  request, step, run, new, record_allocation, record_allocation_dropped, record_channel_bind,
  record_channel_unbind, record_bytes_relayed, record_request,
}

-- How many calls are of a kind.
abbrev pub count_calls : (Call → ℕ) → List Call → ℕ
count_calls f [] = 0
count_calls f (c ∷ calls) = f c + count_calls f calls

abbrev pub is_bind : Call → ℕ
is_bind channel_bind = 1
is_bind _ = 0

abbrev pub is_request : Call → ℕ
is_request (request success duration auth_failed) = 1
is_request _ = 0

abbrev pub is_allocation : Call → ℕ
is_allocation allocation = 1
is_allocation _ = 0

-- The numbers of requests, allocations and bindings so far.
pub record Counts (m : MetricsInner) (requests allocations binds : ℕ) : Type 0 where
  pub outcomes : m.successful_requests + m.failed_requests ≡ m.total_requests
  pub requested : m.total_requests ≡ requests
  pub allocated : m.total_allocations ≡ allocations
  pub bound : m.total_channel_binds ≡ binds
  pub active : m.active_allocations ≤ m.total_allocations
  pub channels : m.active_channels ≤ m.total_channel_binds

step-Counts :
    (m : MetricsInner) (c : Call) (r a b : ℕ)
    → Counts m r a b
    → r + 1 < 2 ^ 64
    → a + 1 < 2 ^ 64
    → b + 1 < 2 ^ 64
    → Counts (step m c) (r + is_request c) (a + is_allocation c) (b + is_bind c)
unfolding step record_allocation record_allocation_dropped record_channel_bind record_channel_unbind
    record_bytes_relayed record_request
step-Counts m allocation r a b v hr ha hb = ground arith
step-Counts m allocation_dropped r a b v hr ha hb = ground arith
step-Counts m channel_bind r a b v hr ha hb = ground arith
step-Counts m channel_unbind r a b v hr ha hb = ground arith
step-Counts m (bytes_relayed n) r a b v hr ha hb = ground arith
step-Counts m (request success duration auth_failed) r a b v hr ha hb = ground arith

is_one : (c : Call) → (is_request c ≤ 1) × (is_allocation c ≤ 1) × (is_bind c ≤ 1)
is_one allocation = omega arith
is_one allocation_dropped = omega arith
is_one channel_bind = omega arith
is_one channel_unbind = omega arith
is_one (bytes_relayed n) = omega arith
is_one (request success duration auth_failed) = omega arith

keeps :
    (m : MetricsInner) (calls : List Call) (r a b k : ℕ)
    → Counts m r a b
    → r ≤ k
    → a ≤ k
    → b ≤ k
    → k + length calls < 2 ^ 64
    → Counts
        (run m calls)
        (r + count_calls is_request calls)
        (a + count_calls is_allocation calls)
        (b + count_calls is_bind calls)
unfolding run
keeps m [] r a b k v hr ha hb fits = omega arith
keeps m (c ∷ calls) r a b k v hr ha hb fits =
    let one = is_one c in
    let stepped = step-Counts m c r a b v (omega arith) (omega arith) (omega arith) in
    let ih =
      keeps (step m c) calls (r + is_request c) (a + is_allocation c) (b + is_bind c) (k + 1)
        stepped (omega arith) (omega arith) (omega arith) (omega arith) in
    record {
      outcomes = ih.outcomes;
      requested = omega (arith, ih.requested);
      allocated = omega (arith, ih.allocated);
      bound = omega (arith, ih.bound);
      active = ih.active;
      channels = ih.channels;
    }

-- After fewer than 2^64 calls on new counters, the requests that succeeded and those that failed are
-- the requests; requests, allocations and bindings are as many as were recorded; and no more
-- allocations or channels are active than there were.
pub run-Counts :
    (now : ℕ) (calls : List Call)
    → length calls < 2 ^ 64
    → Counts
        (run (new now) calls)
        (count_calls is_request calls)
        (count_calls is_allocation calls)
        (count_calls is_bind calls)
unfolding new
run-Counts now calls fits =
    let start : Counts (new now) 0 0 0 = omega arith in
    let ih =
      keeps (new now) calls 0 0 0 0 start (omega arith) (omega arith) (omega arith) (omega arith) in
    record {
      outcomes = ih.outcomes;
      requested = omega (arith, ih.requested);
      allocated = omega (arith, ih.allocated);
      bound = omega (arith, ih.bound);
      active = ih.active;
      channels = ih.channels;
    }
