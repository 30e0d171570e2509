-- ===== src/Channels/Table.antt =====
-- src/allocation.rs, `ChannelTable` and `ChannelBinding`. The order of the list is the order in
-- which the `HashMap` is iterated. `now` and `created_at` are nanoseconds, as are lifetimes.
use miuturn.Common.{
  ℕ, ◌+◌, ◌-◌, ◌*◌, ◌/◌, ◌%◌, ◌^◌, List, [], Option, none, some, Bool, true, false, not, ◌&&◌, ltb,
  leb, ◌==◌, if◌then◌else◌, length, find, retain, ℕ_discrete,
}
use miuturn.Common.Map.{lookup, insert, remove}
use miuturn.Net.{SocketAddr, SocketAddr-discrete}
use miuturn.Errors.{Result, ok, err, already_exists}
use miuturn.Bandwidth.Limiter.{nanos}

abbrev pub Key : Type 0
Key = SocketAddr × ℕ

unfoldable pub Key-discrete : Discrete Key
unfolding SocketAddr-discrete
Key-discrete = hlevel ℕ_discrete

-- `==` on addresses.
abbrev pub same : SocketAddr → SocketAddr → Bool
same a b = elim (SocketAddr-discrete a b) [ yes e ↦ true | no e ↦ false ]

pub record ChannelBinding : Type 0 where
  pub channel_id : ℕ
  pub peer_addr : SocketAddr
  pub relayed_addr : SocketAddr
  pub created_at : ℕ
  pub lifetime : ℕ

unfoldable pub is_expired : ChannelBinding → ℕ → Bool
is_expired b now = ltb b.lifetime (now - b.created_at)

unfoldable pub remaining_lifetime : ChannelBinding → ℕ → ℕ
remaining_lifetime b now =
    let elapsed = now - b.created_at in
    if leb b.lifetime elapsed then 0 else (b.lifetime - elapsed) / nanos % 2 ^ 32

pub record ChannelTable : Type 0 where
  pub channels : List (Key × ChannelBinding)
  pub next_channel : ℕ

unfoldable pub new : ChannelTable
new = record { channels = []; next_channel = 0x4000 }

-- A new binding lives for ten minutes.
unfoldable pub bind :
    ChannelTable → ℕ → SocketAddr → SocketAddr → ℕ → ChannelTable × Result (Unit {0})
bind t channel_id peer_addr relayed_addr now =
    let key : Key = (relayed_addr, channel_id) in
    elim (lookup Key-discrete key t.channels) [
      | some existing ↦
          if same existing.peer_addr peer_addr
          then (
            record t {
              channels = insert Key-discrete key (record existing { created_at = now }) t.channels;
            },
            ok tt,
          )
          else (t, err already_exists)
      | none ↦ (
        record t {
          channels =
              insert Key-discrete key
                (record {
                  channel_id = channel_id;
                  peer_addr = peer_addr;
                  relayed_addr = relayed_addr;
                  created_at = now;
                  lifetime = 600 * nanos;
                })
                t.channels;
        },
        ok tt,
      )
    ]

unfoldable pub get_by_channel : ChannelTable → SocketAddr → ℕ → Option ChannelBinding
get_by_channel t relayed_addr channel_id = lookup Key-discrete (relayed_addr, channel_id) t.channels

-- The three searches return something of the first entry that fits.
abbrev pub first_id : Option (Key × ChannelBinding) → Option ℕ
first_id none = none
first_id (some ((relayed, channel_id), b)) = some channel_id

abbrev pub first_relayed : Option (Key × ChannelBinding) → Option SocketAddr
first_relayed none = none
first_relayed (some (key, b)) = some b.relayed_addr

unfoldable pub get_by_peer : ChannelTable → SocketAddr → Option ℕ
get_by_peer t peer_addr = first_id (find (λ e. same e.1.peer_addr peer_addr) t.channels)

unfoldable pub get_by_peer_for_relayed : ChannelTable → SocketAddr → SocketAddr → Option ℕ
get_by_peer_for_relayed t relayed_addr peer_addr =
    first_id (find (λ e. same e.0.0 relayed_addr && same e.1.peer_addr peer_addr) t.channels)

unfoldable pub get_relayed_by_peer : ChannelTable → SocketAddr → Option SocketAddr
get_relayed_by_peer t peer_addr =
    first_relayed (find (λ e. same e.1.peer_addr peer_addr) t.channels)

unfoldable pub unbind : ChannelTable → SocketAddr → ℕ → ChannelTable × Option ChannelBinding
unbind t relayed_addr channel_id = (
  record t { channels = remove Key-discrete (relayed_addr, channel_id) t.channels },
  lookup Key-discrete (relayed_addr, channel_id) t.channels,
)

-- The two atomic steps of `next_id`: take a number, and wrap around if the next exceeds 0x7FFF.
unfoldable pub fetch_id : ChannelTable → ChannelTable × ℕ
fetch_id t = (record t { next_channel = (t.next_channel + 1) % 2 ^ 16 }, t.next_channel)

unfoldable pub wrap_around : ChannelTable → ChannelTable
wrap_around t = if ltb 0x7FFF t.next_channel then record t { next_channel = 0x4000 } else t

unfoldable pub next_id : ChannelTable → ChannelTable × ℕ
unfolding fetch_id wrap_around
next_id t = (wrap_around (fetch_id t).0, (fetch_id t).1)

unfoldable pub remove_for_relayed : ChannelTable → SocketAddr → ChannelTable × ℕ
remove_for_relayed t relayed_addr =
    let kept = retain (λ e. not (same e.0.0 relayed_addr)) t.channels in
    (record t { channels = kept }, length t.channels - length kept)

unfoldable pub cleanup_expired : ChannelTable → ℕ → ChannelTable × ℕ
unfolding is_expired
cleanup_expired t now =
    let kept = retain (λ e. not (is_expired e.1 now)) t.channels in
    (record t { channels = kept }, length t.channels - length kept)

unfoldable pub len : ChannelTable → ℕ
len t = length t.channels

unfoldable pub is_empty : ChannelTable → Bool
is_empty t = length t.channels == 0
