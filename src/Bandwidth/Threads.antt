-- ===== src/Bandwidth/Threads.antt =====
-- src/bandwidth.rs, `try_consume`, one access to what the threads share at a time.
use miuturn.Common.{
  ℕ, ◌-◌, List, [], ◌∷◌, Option, none, some, Bool, true, false, not, ◌&&◌, ltb, ◌==◌, min,
}
use miuturn.Bandwidth.Limiter.{BandwidthLimiter, tokens_to_add, saturating_add}

-- A call in front of an access, with its time and size: the read of `last_update`; the load of the
-- tokens, with the refill; the exchange, with the value it expects as well; the write of
-- `last_update`, with the tokens that the exchange stored. Or the call has returned.
pub data Thread : Type 0 where
  starts : ℕ → ℕ → Thread
  loads : ℕ → ℕ → ℕ → Thread
  exchanges : ℕ → ℕ → ℕ → ℕ → Thread
  stamps : ℕ → ℕ → Thread
  returns : Option ℕ → Thread

-- The next access of a call. `compare_exchange_weak` fails when the tokens are not those that it
-- expects, and may fail without a reason; a failure observes the tokens.
unfoldable pub access : Bool → BandwidthLimiter → Thread → BandwidthLimiter × Thread
access spurious l (starts now size) =
    (l, loads now size (tokens_to_add l.rate_bytes_per_sec (now - l.last_update)))
access spurious l (loads now size added) = (l, exchanges now size added l.tokens)
access spurious l (exchanges now size added current) =
    let available = min (saturating_add current added) l.max_tokens in
    elim (ltb available size) [
      | true ↦ (l, returns none)
      | false ↦ elim (not spurious && l.tokens == current) [
        | true ↦ (record l { tokens = available - size }, stamps now (available - size))
        | false ↦ (l, exchanges now size added l.tokens)
      ]
    ]
access spurious l (stamps now left) = (record l { last_update = now }, returns (some left))
access spurious l (returns result) = (l, returns result)

-- Which of two calls makes its next access, and whether an exchange fails without a reason.
pub data Turn : Type 0 where
  first second : Bool → Turn

unfoldable pub take_turn :
    BandwidthLimiter × Thread × Thread → Turn → BandwidthLimiter × Thread × Thread
take_turn (l, a, b) (first spurious) = let (l', a') = access spurious l a in (l', a', b)
take_turn (l, a, b) (second spurious) = let (l', b') = access spurious l b in (l', a, b')

-- Two calls on a limiter, in the order of the turns.
unfoldable pub interleave :
    BandwidthLimiter × Thread × Thread → List Turn → BandwidthLimiter × Thread × Thread
unfolding take_turn
interleave s [] = s
interleave s (t ∷ turns) = interleave (take_turn s t) turns
