-- ===== src/Metrics.antt =====
-- src/metrics.rs: the counters. A lock is held for each call. A counter is a `u64` and wraps.
pub mod Counts
mod Tests
use miuturn.Common.{
  ℕ, zero, suc, ◌+◌, ◌-◌, ◌/◌, ◌%◌, ◌^◌, ◌<◌, ◌≤◌, ◌≡◌, refl, List, [], ◌∷◌, ◌++◌, Bool, true,
  false, ltb, if◌then◌else◌, arith, Text,
}
use miuturn.Common.Texts.{codes, print}
use miuturn.Bandwidth.Limiter.{nanos}
use miuturn.Bandwidth.Trackers.{fetch_add}

-- Instants and durations are nanoseconds.
pub record MetricsInner : Type 0 where
  pub total_allocations : ℕ
  pub active_allocations : ℕ
  pub total_bytes_relayed : ℕ
  pub total_messages : ℕ
  pub total_requests : ℕ
  pub successful_requests : ℕ
  pub failed_requests : ℕ
  pub auth_failures : ℕ
  pub total_channel_binds : ℕ
  pub active_channels : ℕ
  pub last_request_duration_ms : ℕ
  pub start_time : ℕ

unfoldable pub new : ℕ → MetricsInner
new now = record {
  total_allocations = 0;
  active_allocations = 0;
  total_bytes_relayed = 0;
  total_messages = 0;
  total_requests = 0;
  successful_requests = 0;
  failed_requests = 0;
  auth_failures = 0;
  total_channel_binds = 0;
  active_channels = 0;
  last_request_duration_ms = 0;
  start_time = now;
}

unfoldable pub record_allocation : MetricsInner → MetricsInner
record_allocation m = record m {
  total_allocations = fetch_add m.total_allocations 1;
  active_allocations = fetch_add m.active_allocations 1;
}

unfoldable pub record_allocation_dropped : MetricsInner → MetricsInner
record_allocation_dropped m =
    if ltb 0 m.active_allocations
    then record m { active_allocations = m.active_allocations - 1 }
    else m

unfoldable pub record_bytes_relayed : MetricsInner → ℕ → MetricsInner
record_bytes_relayed m bytes = record m {
  total_bytes_relayed = fetch_add m.total_bytes_relayed bytes;
  total_messages = fetch_add m.total_messages 1;
}

-- The duration in nanoseconds is kept in milliseconds, as a `u64`.
unfoldable pub record_request : MetricsInner → Bool → ℕ → Bool → MetricsInner
record_request m success duration auth_failed = record m {
  total_requests = fetch_add m.total_requests 1;
  successful_requests =
      if success then fetch_add m.successful_requests 1 else m.successful_requests;
  failed_requests = if success then m.failed_requests else fetch_add m.failed_requests 1;
  auth_failures = if auth_failed then fetch_add m.auth_failures 1 else m.auth_failures;
  last_request_duration_ms = duration / 1000000 % 2 ^ 64;
}

unfoldable pub record_channel_bind : MetricsInner → MetricsInner
record_channel_bind m = record m {
  total_channel_binds = fetch_add m.total_channel_binds 1;
  active_channels = fetch_add m.active_channels 1;
}

unfoldable pub record_channel_unbind : MetricsInner → MetricsInner
record_channel_unbind m =
    if ltb 0 m.active_channels then record m { active_channels = m.active_channels - 1 } else m

-- The snapshot has the uptime in whole seconds in place of the start.
pub record MetricsSnapshot : Type 0 where
  pub counters : MetricsInner
  pub uptime_secs : ℕ

unfoldable pub snapshot : MetricsInner → ℕ → MetricsSnapshot
snapshot m now = record { counters = m; uptime_secs = (now - m.start_time) / nanos }

-- The three lines of a metric: its help, its kind, and its name with the value.
abbrev pub metric : Text → Text → Text → ℕ → Text
metric name help kind value =
    codes "# HELP "
    ++ (name
        ++ (b' ' ∷ help
            ++ (10 ∷ codes "# TYPE "
                ++ (name ++ (b' ' ∷ kind ++ (10 ∷ name ++ (b' ' ∷ print value ++ (10 ∷ []))))))))

unfoldable pub export_prometheus : MetricsInner → ℕ → Text
unfolding snapshot print
export_prometheus m now =
    let snap = snapshot m now in
    let c = snap.counters in
    let counter = codes "counter" in
    let gauge = codes "gauge" in
    metric (codes "turn_total_allocations") (codes "Total number of allocations created") counter
      c.total_allocations
    ++ (metric (codes "turn_active_allocations") (codes "Current number of active allocations")
          gauge c.active_allocations
        ++ (metric (codes "turn_total_bytes_relayed") (codes "Total bytes relayed") counter
              c.total_bytes_relayed
            ++ (metric (codes "turn_total_messages") (codes "Total messages relayed") counter
                  c.total_messages
                ++ (metric (codes "turn_total_requests") (codes "Total TURN requests received")
                      counter c.total_requests
                    ++ (metric (codes "turn_successful_requests") (codes "Successful requests")
                          counter c.successful_requests
                        ++ (metric (codes "turn_failed_requests") (codes "Failed requests") counter
                              c.failed_requests
                            ++ (metric (codes "turn_auth_failures")
                                  (codes "Authentication failures") counter c.auth_failures
                                ++ (metric (codes "turn_total_channel_binds")
                                      (codes "Total channel binds") counter c.total_channel_binds
                                    ++ (metric (codes "turn_active_channels")
                                          (codes "Current active channels") gauge c.active_channels
                                        ++ (metric (codes "turn_request_duration_ms")
                                              (codes "Last request duration") gauge
                                              c.last_request_duration_ms
                                            ++ metric (codes "turn_uptime_seconds")
                                                (codes "Server uptime") gauge
                                                snap.uptime_secs))))))))))

-- A call of the collector.
pub data Call : Type 0 where
  allocation allocation_dropped channel_bind channel_unbind : Call
  bytes_relayed : ℕ → Call
  request : Bool → ℕ → Bool → Call

unfoldable pub step : MetricsInner → Call → MetricsInner
step m allocation = record_allocation m
step m allocation_dropped = record_allocation_dropped m
step m channel_bind = record_channel_bind m
step m channel_unbind = record_channel_unbind m
step m (bytes_relayed bytes) = record_bytes_relayed m bytes
step m (request success duration auth_failed) = record_request m success duration auth_failed

unfoldable pub run : MetricsInner → List Call → MetricsInner
run m [] = m
run m (c ∷ calls) = run (step m c) calls
