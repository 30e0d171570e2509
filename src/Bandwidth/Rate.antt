-- ===== src/Bandwidth/Rate.antt =====
-- src/bandwidth.rs: what calls to a limiter grant that come one after another, without a disturbance
-- by other threads. Race is about calls that meet.
use miuturn.Common.{
  ℕ, ◌+◌, ◌-◌, ◌*◌, ◌/◌, ◌^◌, ◌≤◌, ◌<◌, ◌≡◌, refl, ap, ◌∙◌, List, [], ◌∷◌, Option, none, some, min,
  arith,
}
use miuturn.Bandwidth.Limiter.{
  BandwidthLimiter, tokens_to_add, try_consume, available_tokens, nanos,
}
use native.Mathlib.Nat.{div-add-mod}

abbrev pub granted_by : ℕ → Option ℕ → ℕ
granted_by size none = 0
granted_by size (some left) = size

-- Calls as pairs of a time and a size: the limiter after them, and the bytes that were granted.
unfoldable pub run : BandwidthLimiter → List (ℕ × ℕ) → BandwidthLimiter × ℕ
run l [] = (l, 0)
run l ((now, size) ∷ calls) =
    let rest = run (try_consume l now size).0 calls in
    (rest.0, granted_by size (try_consume l now size).1 + rest.1)

-- The times do not fall.
abbrev pub Rises : ℕ → List (ℕ × ℕ) → Type 0
Rises t [] = Unit {0}
Rises t ((now, size) ∷ calls) = (t ≤ now) × Rises now calls

-- What is earned is at most the rate times the time.
tokens_to_add_bound : (rate elapsed : ℕ) → tokens_to_add rate elapsed * nanos ≤ elapsed * rate
unfolding tokens_to_add
tokens_to_add_bound rate elapsed =
    omega (arith, ap (λ (t : ℕ). t * rate) (div-add-mod elapsed nanos))

Rises-mono : (s t : ℕ) (calls : List (ℕ × ℕ)) → s ≤ t → Rises t calls → Rises s calls
Rises-mono s t [] h r = tt
Rises-mono s t ((now, size) ∷ calls) h r = (omega arith, r.1)

-- The bucket does not overflow, and what was granted was there or has been earned.
pub record Balances (l : BandwidthLimiter) (granted : ℕ) (l' : BandwidthLimiter) : Type 0 where
  pub capacity : l'.max_tokens ≡ l.max_tokens
  pub rate : l'.rate_bytes_per_sec ≡ l.rate_bytes_per_sec
  pub later : l.last_update ≤ l'.last_update
  pub within : l'.tokens ≤ l'.max_tokens
  pub balance :
      (granted + l'.tokens) * nanos
      ≤ l.tokens * nanos + (l'.last_update - l.last_update) * l.rate_bytes_per_sec

module _ (l : BandwidthLimiter) (now size : ℕ) (h : l.tokens ≤ l.max_tokens) where
  try_consume-Balances :
      l.last_update ≤ now
      → Balances l (granted_by size (try_consume l now size).1) (try_consume l now size).0
  unfolding try_consume
  try_consume-Balances t =
      ground (arith, tokens_to_add_bound l.rate_bytes_per_sec (now - l.last_update))

  last_update-le-now : l.last_update ≤ now → (try_consume l now size).0.last_update ≤ now
  unfolding try_consume
  last_update-le-now t = ground arith

split_time : (a b c r : ℕ) → a ≤ b → b ≤ c → (c - a) * r ≡ (b - a) * r + (c - b) * r
split_time a b c r h k =
    let e : c - a ≡ b - a + (c - b) = omega arith in omega (arith, ap (λ (t : ℕ). t * r) e)

Balances-trans :
    {l m n : BandwidthLimiter} {g k : ℕ} → Balances l g m → Balances m k n → Balances l (g + k) n
Balances-trans {l} {m} {n} a b = record {
  capacity = b.capacity ∙ a.capacity;
  rate = b.rate ∙ a.rate;
  later = omega arith;
  within = b.within;
  balance = omega (
    arith,
    split_time l.last_update m.last_update n.last_update l.rate_bytes_per_sec a.later b.later,
    ap (λ (t : ℕ). (n.last_update - m.last_update) * t) a.rate,
  );
}

-- Calls come one after another, undisturbed by other threads, at times that do not fall and are not
-- before the last update, and the tokens at the start are at most the burst. Then the bytes granted
-- and the tokens left are at most the tokens at the start and what the rate earned up to the last
-- call that was granted; the tokens left are at most the burst, and burst and rate are as they were.
pub run-Balances :
    (l : BandwidthLimiter) (calls : List (ℕ × ℕ))
    → l.tokens ≤ l.max_tokens
    → Rises l.last_update calls
    → Balances l (run l calls).1 (run l calls).0
unfolding run
run-Balances l [] h t = record {
  capacity = refl;
  rate = refl;
  later = omega arith;
  within = h;
  balance = omega arith;
}
run-Balances l ((now, size) ∷ calls) h (t, ts) =
    let first = try_consume-Balances l now size h t in
    Balances-trans first (
      run-Balances (try_consume l now size).0 calls first.within
        (Rises-mono _ now calls (last_update-le-now l now size h t) ts))

whole_seconds : (rate elapsed : ℕ) → elapsed / nanos * rate ≤ elapsed * rate
whole_seconds rate elapsed = omega (arith, ap (λ (t : ℕ). t * rate) (div-add-mod elapsed nanos))

-- Where nothing wraps, a call for no more than the tokens that are shown as available succeeds.
pub available_tokens-suffice :
    (l : BandwidthLimiter) (now size : ℕ)
    → l.tokens + (now - l.last_update) * l.rate_bytes_per_sec < 2 ^ 64
    → size ≤ available_tokens l now
    → (left : ℕ) × ((try_consume l now size).1 ≡ some left)
unfolding try_consume available_tokens tokens_to_add
available_tokens-suffice l now size h e =
    let elapsed : ℕ = now - l.last_update in
    let added : ℕ = tokens_to_add l.rate_bytes_per_sec elapsed in
    (
      min (min (l.tokens + added) (2 ^ 64 - 1)) l.max_tokens - size,
      ground (arith, whole_seconds l.rate_bytes_per_sec elapsed),
    )
