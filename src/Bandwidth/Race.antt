-- ===== src/Bandwidth/Race.antt =====
-- src/bandwidth.rs: two calls of `try_consume` that meet.
use miuturn.Common.{
  ℕ, ◌+◌, ◌-◌, ◌≤◌, ◌<◌, ◌≡◌, refl, ap, ◌∙◌, List, [], ◌∷◌, ◌++◌, some, none, Option, false, min,
  arith,
}
use miuturn.Bandwidth.Limiter.{
  BandwidthLimiter, tokens_to_add, try_consume, consume_loop, saturating_add,
}
use miuturn.Bandwidth.Threads.{
  Thread, starts, exchanges, returns, Turn, first, second, access, take_turn, interleave,
}

-- The second call begins when the first has returned.
abbrev pub one_by_one : List Turn
one_by_one =
    first false
    ∷ first false
    ∷ first false
    ∷ first false
    ∷ second false
    ∷ second false
    ∷ second false
    ∷ second false
    ∷ []

-- Both calls have read the time and the tokens before the first of them exchanges and returns. The
-- second has turns for an exchange that fails, for one that does not, and to return.
abbrev pub six_turns : List Turn
six_turns = first false ∷ second false ∷ first false ∷ second false ∷ first false ∷ first false ∷ []

abbrev pub both_read : List Turn
both_read = six_turns ++ second false ∷ second false ∷ second false ∷ []

-- Without a disturbance, the accesses of two calls do what the two calls do.
interleave-one_by_one :
    (l : BandwidthLimiter) (now later size size' : ℕ) (m : BandwidthLimiter) (r : Option ℕ)
    → try_consume l now size ≡ (m, r)
    → interleave (l, starts now size, starts later size') one_by_one
      ≡ ((try_consume m later size').0, returns r, returns (try_consume m later size').1)
unfolding interleave take_turn access try_consume consume_loop
interleave-one_by_one l now later size size' m r e = ground (arith, e)

-- What a call finds that loads `tokens` and then adds a refill.
abbrev pub refilled : BandwidthLimiter → ℕ → ℕ → ℕ
refilled l tokens added = min (saturating_add tokens added) l.max_tokens

-- A refill for no time.
refused_after :
    (l : BandwidthLimiter) (now size size' : ℕ)
    → let left =
        refilled l l.tokens (tokens_to_add l.rate_bytes_per_sec (now - l.last_update)) - size in
      size ≤ refilled l l.tokens (tokens_to_add l.rate_bytes_per_sec (now - l.last_update))
      → left < size'
      → (try_consume l now size ≡ (record l { tokens = left; last_update = now }, some left))
        × (try_consume (record l { tokens = left; last_update = now }) now size'
            ≡ (record l { tokens = left; last_update = now }, none))
unfolding try_consume consume_loop tokens_to_add
refused_after l now size size' fits more = (ground arith, ground arith)

interleave-append :
    (s : BandwidthLimiter × Thread × Thread) (turns later : List Turn)
    → interleave s (turns ++ later) ≡ interleave (interleave s turns) later
unfolding interleave
interleave-append s [] later = refl
interleave-append s (t ∷ turns) later = interleave-append (take_turn s t) turns later

-- The rest of a call that is about to exchange, whatever value it expects.
second_finishes :
    (m : BandwidthLimiter) (a : Thread) (now size added current : ℕ)
    → size ≤ refilled m current added
    → size ≤ refilled m m.tokens added
    → interleave
        (m, a, exchanges now size added current)
        (second false ∷ second false ∷ second false ∷ [])
      ≡ (
        record m { tokens = refilled m m.tokens added - size; last_update = now },
        a,
        returns (some (refilled m m.tokens added - size)),
      )
unfolding interleave take_turn access
second_finishes m a now size added current fits fits' = ground arith

-- The first six turns: the first call has returned, and the second expects the tokens of the start.
first_returns :
    (l : BandwidthLimiter) (now size size' : ℕ)
    → let earned = tokens_to_add l.rate_bytes_per_sec (now - l.last_update) in
      let left = refilled l l.tokens earned - size in
      size ≤ refilled l l.tokens earned
      → interleave (l, starts now size, starts now size') six_turns ≡ (
        record l { tokens = left; last_update = now },
        returns (some left),
        exchanges now size' earned l.tokens,
      )
unfolding interleave take_turn access
first_returns l now size size' fits = ground arith

-- Two calls come at one time, each for no more than the bucket holds then, the second for more than
-- the first leaves, and no more than what it leaves with the refill counted again. One after the
-- other, the first is granted and the second refused. If both have read `last_update` and the tokens
-- before the first exchanges, both are granted, together for more than the bucket held.
pub race_grants_twice :
    (l : BandwidthLimiter) (now size size' : ℕ)
    → let earned = tokens_to_add l.rate_bytes_per_sec (now - l.last_update) in
      let held = refilled l l.tokens earned in
      let left = held - size in
      let after : BandwidthLimiter = record l { tokens = left; last_update = now } in
      let left' = refilled l left earned - size' in
      size ≤ held
      → size' ≤ held
      → left < size'
      → size' ≤ refilled l left earned
      → (try_consume l now size ≡ (after, some left))
        × (try_consume after now size' ≡ (after, none))
        × (interleave (l, starts now size, starts now size') one_by_one
            ≡ (after, returns (some left), returns none))
        × (interleave (l, starts now size, starts now size') both_read ≡ (
          record l { tokens = left'; last_update = now },
          returns (some left),
          returns (some left'),
        ))
        × (held < size + size')
race_grants_twice l now size size' fits fits' more again =
    let earned = tokens_to_add l.rate_bytes_per_sec (now - l.last_update) in
    let left = refilled l l.tokens earned - size in
    let after : BandwidthLimiter = record l { tokens = left; last_update = now } in
    let (granted, refused) = refused_after l now size size' fits more in
    (
      granted,
      refused,
      interleave-one_by_one l now now size size' after (some left) granted
          ∙ ap (λ (r : BandwidthLimiter × Option ℕ). (r.0, returns (some left), returns r.1))
              refused,
      interleave-append (l, starts now size, starts now size') six_turns _
          ∙ (ap (λ s. interleave s (second false ∷ second false ∷ second false ∷ []))
                (first_returns l now size size' fits)
              ∙ second_finishes after (returns (some left)) now size' earned l.tokens fits' again),
      omega (arith, fits, more),
    )
