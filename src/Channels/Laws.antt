-- ===== src/Channels/Laws.antt =====
-- src/allocation.rs, `ChannelTable`: what each operation does to the bindings that are looked up.
use miuturn.Common.{
  ℕ, ◌+◌, ◌*◌, ◌≤◌, ◌≡◌, ◌≢◌, sym, ap, ◌∙◌, Option, none, some, Bool, not, ◌&&◌, if◌then◌else◌,
  length, All, find, length-retain-le, ite, inl, inr, Option-cases, arith,
}
use miuturn.Common.Map.{IsMap, keep_if, lookup, lookup-insert, lookup-retain, find-some, find-none}
use mathlib.Core.Path.{ap₂}
use miuturn.Net.{SocketAddr}
use miuturn.Errors.{Result, ok, err, already_exists}
use miuturn.Bandwidth.Limiter.{nanos}
use miuturn.Channels.Table.{
  Key, Key-discrete, same, ChannelBinding, ChannelTable, is_expired, bind, get_by_channel,
  get_by_peer_for_relayed, remove_for_relayed, cleanup_expired,
}

-- No key twice, every binding under its own address and number, and a next number in range.
abbrev pub Agrees : Key × ChannelBinding → Type 0
Agrees e = ((e.1).relayed_addr ≡ e.0.0) × ((e.1).channel_id ≡ e.0.1)

pub record IsValid (t : ChannelTable) : Type 0 where
  pub distinct : IsMap t.channels
  pub agree : All Agrees t.channels
  pub in_range : (0x4000 ≤ t.next_channel) × (t.next_channel ≤ 0x7FFF)

-- What `bind` leaves under its key, and what it answers, by what was there.
abbrev pub bound : Option ChannelBinding → ℕ → SocketAddr → SocketAddr → ℕ → ChannelBinding
bound none channel_id peer relayed now = record {
  channel_id = channel_id;
  peer_addr = peer;
  relayed_addr = relayed;
  created_at = now;
  lifetime = 600 * nanos;
}
bound (some b) channel_id peer relayed now =
    if same b.peer_addr peer then record b { created_at = now } else b

abbrev pub bind_answer : Option ChannelBinding → SocketAddr → Result (Unit {0})
bind_answer none peer = ok tt
bind_answer (some b) peer = if same b.peer_addr peer then ok tt else err already_exists

-- `bind` makes a binding of ten minutes where there was none, renews one to the same peer, refuses
-- one to another peer and leaves it as it was; no other binding changes.
pub get_by_channel-bind :
    (t : ChannelTable) (channel_id c : ℕ) (peer relayed r : SocketAddr) (now : ℕ)
    → let old = get_by_channel t relayed channel_id in
      let (t', answer) = bind t channel_id peer relayed now in
      (answer ≡ bind_answer old peer)
      × (get_by_channel t' r c
          ≡ ite
              (Key-discrete (relayed, channel_id) (r, c))
              (some (bound old channel_id peer relayed now))
              (get_by_channel t r c))
unfolding bind get_by_channel
get_by_channel-bind t channel_id c peer relayed r now =
    let key : Key = (relayed, channel_id) in
    let old : Option ChannelBinding = lookup Key-discrete key t.channels in
    ground (
      arith,
      lookup-insert Key-discrete key (r, c) (bound old channel_id peer relayed now) t.channels,
      λ (e : key ≡ (r, c)). ap (λ k. lookup Key-discrete k t.channels) e,
    )

-- Clearing an allocation removes all its bindings and no other, and counts them.
pub get_by_channel-remove_for_relayed :
    (t : ChannelTable) (relayed r : SocketAddr) (c : ℕ)
    → IsValid t
    → let (t', count) = remove_for_relayed t relayed in
      (get_by_channel t' r c ≡ (if same r relayed then none else get_by_channel t r c))
      × (length t'.channels + count ≡ length t.channels)
unfolding remove_for_relayed get_by_channel
get_by_channel-remove_for_relayed t relayed r c v =
    let p : Key × ChannelBinding → Bool = λ e. not (same e.0.0 relayed) in
    ground (
      arith,
      lookup-retain Key-discrete p (r, c) t.channels v.distinct,
      length-retain-le p t.channels,
    )

-- A cleanup removes exactly the bindings that have outlived their lifetime, and counts them.
pub get_by_channel-cleanup_expired :
    (t : ChannelTable) (now : ℕ) (r : SocketAddr) (c : ℕ)
    → IsValid t
    → let (t', count) = cleanup_expired t now in
      (get_by_channel t' r c ≡ keep_if (λ b. not (is_expired b now)) (get_by_channel t r c))
      × (length t'.channels + count ≡ length t.channels)
unfolding cleanup_expired get_by_channel
get_by_channel-cleanup_expired t now r c v =
    let p : Key × ChannelBinding → Bool = λ e. not (is_expired e.1 now) in
    (
      lookup-retain Key-discrete p (r, c) t.channels v.distinct,
      omega (arith, length-retain-le p t.channels),
    )

-- The number found for a peer on an allocation is that of one of its bindings to that peer.
pub get_by_peer_for_relayed-some :
    (t : ChannelTable) (relayed peer : SocketAddr) (c : ℕ)
    → IsValid t
    → get_by_peer_for_relayed t relayed peer ≡ some c
    → (b : ChannelBinding) × (get_by_channel t relayed c ≡ some b) × (b.peer_addr ≡ peer)
unfolding get_by_peer_for_relayed get_by_channel
get_by_peer_for_relayed-some t relayed peer c v e =
    let p : Key × ChannelBinding → Bool = λ x. same x.0.0 relayed && same x.1.peer_addr peer in
    elim (Option-cases (find p t.channels)) [
      | inl missing ↦ absurd (ground (arith, missing))
      | inr (((r, i), b), hit) ↦
          let (there, passed) = find-some Key-discrete p (r, i) b t.channels v.distinct hit in
          let at_key : (r ≡ relayed) × (i ≡ c) × (b.peer_addr ≡ peer) =
            (ground (arith, passed), ground (arith, hit), ground (arith, passed)) in
          (
            b,
            ap₂ (λ x y. lookup Key-discrete (x, y) t.channels) (sym at_key.0) (sym at_key.1)
                ∙ there,
            at_key.2,
          )
    ]

-- Where none is found, no binding of the allocation goes to that peer.
pub get_by_peer_for_relayed-none :
    (t : ChannelTable) (relayed peer : SocketAddr) (c : ℕ) (b : ChannelBinding)
    → get_by_peer_for_relayed t relayed peer ≡ none
    → get_by_channel t relayed c ≡ some b
    → b.peer_addr ≢ peer
unfolding get_by_peer_for_relayed get_by_channel
get_by_peer_for_relayed-none t relayed peer c b e l =
    let p : Key × ChannelBinding → Bool = λ x. same x.0.0 relayed && same x.1.peer_addr peer in
    elim (Option-cases (find p t.channels)) [
      | inl missing ↦ ground (arith, find-none Key-discrete p (relayed, c) b t.channels missing l)
      | inr (((r, i), b'), hit) ↦ absurd (ground (arith, hit))
    ]
