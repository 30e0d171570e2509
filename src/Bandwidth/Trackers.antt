-- ===== src/Bandwidth/Trackers.antt =====
-- src/bandwidth.rs: the trackers of a user and of an allocation, and the manager over them all.
use miuturn.Common.{ℕ, ◌+◌, ◌%◌, ◌^◌, ◌/◌, List, [], Option, none, some, Bool, true, false, Text}
use miuturn.Common.Map.{lookup, insert, remove}
use miuturn.Common.Texts.{Text-discrete}
use miuturn.Bandwidth.Limiter.{BandwidthLimiter, new, try_consume, saturating_mul, u64_max}

-- `limit.unwrap_or(u64::MAX / 2)`, and a burst of ten seconds.
abbrev pub rate_of : Option ℕ → ℕ
rate_of none = u64_max / 2
rate_of (some limit) = limit

unfoldable pub limiter_for : Option ℕ → ℕ → BandwidthLimiter
limiter_for limit now = new (rate_of limit) (saturating_mul (rate_of limit) 10) now

pub record UserBandwidthTracker : Type 0 where
  pub user_id : Text
  pub limiter : BandwidthLimiter
  pub total_bytes : ℕ
  pub limit_bytes_per_sec : Option ℕ

unfoldable pub user_tracker : Text → Option ℕ → ℕ → UserBandwidthTracker
user_tracker user_id limit now = record {
  user_id = user_id;
  limiter = limiter_for limit now;
  total_bytes = 0;
  limit_bytes_per_sec = limit;
}

-- `fetch_add` on an `AtomicU64` wraps.
abbrev pub fetch_add : ℕ → ℕ → ℕ
fetch_add total size = (total + size) % 2 ^ 64

unfoldable pub try_relay_user : UserBandwidthTracker → ℕ → ℕ → UserBandwidthTracker × Option ℕ
try_relay_user t now size = elim t.limit_bytes_per_sec [
  | none ↦ (record t { total_bytes = fetch_add t.total_bytes size }, some u64_max)
  | some limit ↦
      let (limiter, answer) = try_consume t.limiter now size in
      elim answer [
        | none ↦ (record t { limiter = limiter }, none)
        | some left ↦
            (record t { limiter = limiter; total_bytes = fetch_add t.total_bytes size }, some left)
      ]
]

pub record AllocationBandwidthTracker : Type 0 where
  pub relayed_addr : Text
  pub limiter : BandwidthLimiter
  pub limit_bytes_per_sec : Option ℕ

unfoldable pub allocation_tracker : Text → Option ℕ → ℕ → AllocationBandwidthTracker
allocation_tracker relayed_addr limit now = record {
  relayed_addr = relayed_addr;
  limiter = limiter_for limit now;
  limit_bytes_per_sec = limit;
}

unfoldable pub try_relay_allocation :
    AllocationBandwidthTracker → ℕ → ℕ → AllocationBandwidthTracker × Option ℕ
try_relay_allocation t now size = elim t.limit_bytes_per_sec [
  | none ↦ (t, some u64_max)
  | some limit ↦
      let (limiter, answer) = try_consume t.limiter now size in
      (record t { limiter = limiter }, answer)
]

pub record BandwidthManager : Type 0 where
  pub trackers : List (Text × AllocationBandwidthTracker)
  pub global_limiter : BandwidthLimiter
  pub total_bytes : ℕ
  pub global_limit : Option ℕ

unfoldable pub manager : Option ℕ → ℕ → BandwidthManager
manager limit now = record {
  trackers = [];
  global_limiter = limiter_for limit now;
  total_bytes = 0;
  global_limit = limit;
}

unfoldable pub register_allocation : BandwidthManager → Text → Option ℕ → ℕ → BandwidthManager
register_allocation m relayed_addr limit now = record m {
  trackers =
      insert Text-discrete relayed_addr (allocation_tracker relayed_addr limit now) m.trackers;
}

unfoldable pub unregister_allocation : BandwidthManager → Text → BandwidthManager
unregister_allocation m relayed_addr = record m {
  trackers = remove Text-discrete relayed_addr m.trackers;
}

-- The global limiter is asked first, where there is a global limit.
unfoldable pub ask_global : BandwidthManager → ℕ → ℕ → BandwidthManager × Bool
ask_global m now size = elim m.global_limit [
  | none ↦ (m, true)
  | some limit ↦
      let (limiter, answer) = try_consume m.global_limiter now size in
      (record m { global_limiter = limiter }, elim answer [ none ↦ false | some left ↦ true ])
]

unfoldable pub ask_tracker : BandwidthManager → Text → ℕ → ℕ → BandwidthManager × Bool
ask_tracker m relayed_addr now size = elim (lookup Text-discrete relayed_addr m.trackers) [
  | none ↦ (record m { total_bytes = fetch_add m.total_bytes size }, true)
  | some tracker ↦
      let (tracker', answer) = try_relay_allocation tracker now size in
      let trackers = insert Text-discrete relayed_addr tracker' m.trackers in
      elim answer [
        | none ↦ (record m { trackers = trackers }, false)
        | some left ↦
            (record m { trackers = trackers; total_bytes = fetch_add m.total_bytes size }, true)
      ]
]

unfoldable pub try_relay : BandwidthManager → Text → ℕ → ℕ → BandwidthManager × Bool
try_relay m relayed_addr now size = elim (ask_global m now size).1 [
  | false ↦ ((ask_global m now size).0, false)
  | true ↦ ask_tracker (ask_global m now size).0 relayed_addr now size
]
