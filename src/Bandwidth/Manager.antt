-- ===== src/Bandwidth/Manager.antt =====
-- src/bandwidth.rs, `BandwidthManager::try_relay`: which packets pass, and what they are charged.
use miuturn.Common.{
  ℕ, ◌≡◌, ◌≢◌, refl, Option, none, some, Bool, true, false, ◌&&◌, Text, arith, inl, inr,
  Option-cases,
}
use miuturn.Common.Map.{lookup, lookup-insert_ne}
use miuturn.Bandwidth.Limiter.{BandwidthLimiter, try_consume}
use miuturn.Common.Texts.{Text-discrete}
use miuturn.Bandwidth.Trackers.{
  BandwidthManager, AllocationBandwidthTracker, fetch_add, try_relay_allocation, ask_global,
  ask_tracker, try_relay,
}

-- Whether a bucket has room for a packet, and whether its limit lets it pass.
abbrev pub answered : {A : Type 0} → Option A → Bool
answered none = false
answered (some left) = true

abbrev pub passes : Option ℕ → BandwidthLimiter → ℕ → ℕ → Bool
passes none l now size = true
passes (some limit) l now size = answered (try_consume l now size).1

abbrev pub tracker_passes : Option AllocationBandwidthTracker → ℕ → ℕ → Bool
tracker_passes none now size = true
tracker_passes (some t) now size = passes t.limit_bytes_per_sec t.limiter now size

abbrev pub charged : Bool → ℕ → ℕ → ℕ
charged true total size = fetch_add total size
charged false total size = total

ask_tracker-other :
    (m : BandwidthManager) (addr other : Text) (now size : ℕ)
    → addr ≢ other
    → lookup Text-discrete other (ask_tracker m addr now size).0.trackers
      ≡ lookup Text-discrete other m.trackers
unfolding ask_tracker
ask_tracker-other m addr other now size h =
    elim (Option-cases (lookup Text-discrete addr m.trackers)) [
      | inl e ↦ rw (e, ask_tracker) refl
      | inr (t, e) ↦
          let t' : AllocationBandwidthTracker = (try_relay_allocation t now size).0 in
          ground (arith, e, lookup-insert_ne Text-discrete addr other t' m.trackers h)
    ]

-- A packet passes exactly when the global limit and the limit of its allocation both let it; it is
-- counted exactly when it passes; and no other allocation's tracker changes.
pub try_relay_lem :
    (m : BandwidthManager) (addr other : Text) (now size : ℕ)
    → addr ≢ other
    → let passed =
        passes m.global_limit m.global_limiter now size
        && tracker_passes (lookup Text-discrete addr m.trackers) now size in
      let (m', ok) = try_relay m addr now size in
      (ok ≡ passed)
      × (m'.total_bytes ≡ charged passed m.total_bytes size)
      × (lookup Text-discrete other m'.trackers ≡ lookup Text-discrete other m.trackers)
unfolding try_relay ask_global ask_tracker try_relay_allocation
try_relay_lem m addr other now size h =
    ground (arith, ask_tracker-other (ask_global m now size).0 addr other now size h)

try_consume_left :
    (l : BandwidthLimiter) (now size left : ℕ)
    → (try_consume l now size).1 ≡ some left
    → (try_consume l now size).0.tokens ≡ left
unfolding try_consume
try_consume_left l now size left e = ground arith

-- A packet that its own allocation's limit refuses has been paid for by the global bucket.
pub refused_but_charged :
    (m : BandwidthManager) (addr : Text) (now size limit left : ℕ) (t : AllocationBandwidthTracker)
    → m.global_limit ≡ some limit
    → (try_consume m.global_limiter now size).1 ≡ some left
    → lookup Text-discrete addr m.trackers ≡ some t
    → (try_relay_allocation t now size).1 ≡ none
    → ((try_relay m addr now size).1 ≡ false)
      × ((try_relay m addr now size).0.global_limiter ≡ (try_consume m.global_limiter now size).0)
      × ((try_relay m addr now size).0.global_limiter.tokens ≡ left)
unfolding try_relay ask_global ask_tracker
refused_but_charged m addr now size limit left t hg hl ht hn =
    ground (arith, try_consume_left m.global_limiter now size left hl)
