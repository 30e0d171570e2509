-- ===== src/Bandwidth/Limiter.antt =====
-- src/bandwidth.rs, `BandwidthLimiter`. An `Instant` is a count of nanoseconds, and `now` is an
-- argument. Tokens and rates are `u64`s; sums and products saturate or wrap as the code says.
use miuturn.Common.{
  ℕ, ◌+◌, ◌-◌, ◌*◌, ◌/◌, ◌%◌, ◌^◌, List, [], ◌∷◌, Option, none, some, true, false, min, ltb,
}

abbrev pub u64_max : ℕ
u64_max = 2 ^ 64 - 1

abbrev pub nanos : ℕ
nanos = 1_000_000_000

abbrev pub saturating_add : ℕ → ℕ → ℕ
saturating_add a b = min (a + b) u64_max

abbrev pub saturating_mul : ℕ → ℕ → ℕ
saturating_mul a b = min (a * b) u64_max

pub record BandwidthLimiter : Type 0 where
  pub max_tokens : ℕ
  pub tokens : ℕ
  pub rate_bytes_per_sec : ℕ
  pub last_update : ℕ

unfoldable pub new : ℕ → ℕ → ℕ → BandwidthLimiter
new rate_bytes_per_sec burst_bytes now = record {
  max_tokens = burst_bytes;
  tokens = burst_bytes;
  rate_bytes_per_sec = rate_bytes_per_sec;
  last_update = now;
}

-- The tokens that `elapsed` nanoseconds earn.
unfoldable pub tokens_to_add : ℕ → ℕ → ℕ
tokens_to_add rate elapsed =
    saturating_add (saturating_mul (elapsed / nanos) rate) (elapsed % nanos * rate / nanos % 2 ^ 64)

-- The loop around `compare_exchange_weak`: the list holds the values that the failing exchanges
-- observe, in order, and the exchange after the last of them succeeds. The result is what the
-- successful exchange stores.
unfoldable pub consume_loop : ℕ → ℕ → ℕ → List ℕ → ℕ → Option ℕ
consume_loop max_tokens added size [] current =
    let available = min (saturating_add current added) max_tokens in
    elim (ltb available size) [ true ↦ none | false ↦ some (available - size) ]
consume_loop max_tokens added size (observed ∷ rest) current =
    let available = min (saturating_add current added) max_tokens in
    elim (ltb available size) [
      | true ↦ none
      | false ↦ consume_loop max_tokens added size rest observed
    ]

-- A call that no other thread disturbs.
unfoldable pub try_consume : BandwidthLimiter → ℕ → ℕ → BandwidthLimiter × Option ℕ
unfolding consume_loop
try_consume l now size =
    let added = tokens_to_add l.rate_bytes_per_sec (now - l.last_update) in
    elim (consume_loop l.max_tokens added size [] l.tokens) [
      | none ↦ (l, none)
      | some new_tokens ↦ (record l { tokens = new_tokens; last_update = now }, some new_tokens)
    ]

-- In release builds the product and the sum wrap.
unfoldable pub available_tokens : BandwidthLimiter → ℕ → ℕ
available_tokens l now =
    let added = (now - l.last_update) / nanos * l.rate_bytes_per_sec % 2 ^ 64 in
    min ((l.tokens + added) % 2 ^ 64) l.max_tokens

unfoldable pub reset : BandwidthLimiter → BandwidthLimiter
reset l = record l { tokens = l.max_tokens }
