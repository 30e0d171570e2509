-- ===== src/Allocations/Table.antt =====
-- src/allocation.rs, `Allocation` and `AllocationTable`: the state, and the operations on allocations
-- that exist. Instants and durations are nanoseconds. `to_string` is how the standard library
-- prints an address. A relay is the number of its socket.
use miuturn.Common.{
  ℕ, ◌+◌, ◌-◌, ◌*◌, ◌/◌, ◌%◌, ◌^◌, List, [], ◌∷◌, Option, none, some, Bool, ltb, leb, if◌then◌else◌,
  retain, map, Text,
}
use miuturn.Common.Map.{lookup, insert, remove}
use miuturn.Net.{IpAddr, SocketAddr, v4, port, SocketAddr-discrete}
use miuturn.Errors.{Result, ok, err, not_found}
use miuturn.Bandwidth.Limiter.{nanos}
use miuturn.Bandwidth.Trackers.{BandwidthManager, manager, unregister_allocation}
use miuturn.Channels.Table.{ChannelTable, remove_for_relayed}
use miuturn.Ports.Bitmap.{PortAllocator, release}
use miuturn.Ports.Bitmap

pub record Allocation : Type 0 where
  pub id : List ℕ
  pub relayed_addr : SocketAddr
  pub client_addr : SocketAddr
  pub created_at : ℕ
  pub lifetime : ℕ
  pub five_tuple : SocketAddr × SocketAddr
  pub relay : Option ℕ
  pub permissions : List IpAddr
  pub bytes_forwarded : ℕ
  pub messages_forwarded : ℕ

unfoldable pub is_expired : Allocation → ℕ → Bool
is_expired a now = ltb a.lifetime (now - a.created_at)

unfoldable pub remaining_lifetime : Allocation → ℕ → ℕ
remaining_lifetime a now =
    let elapsed = now - a.created_at in
    if leb a.lifetime elapsed then 0 else (a.lifetime - elapsed) / nanos % 2 ^ 32

pub record ServerStats : Type 0 where
  pub total_allocations : ℕ
  pub active_allocations : ℕ
  pub total_bytes_relayed : ℕ
  pub total_messages : ℕ

-- `fetch_sub` of an `AtomicU64`.
abbrev pub fetch_sub : ℕ → ℕ → ℕ
fetch_sub x n = (x + 2 ^ 64 - n % 2 ^ 64) % 2 ^ 64

-- The four octets of an `Ipv4Addr`.
abbrev pub Ipv4Addr : Type 0
Ipv4Addr = ℕ × ℕ × ℕ × ℕ

abbrev pub socket_addr_v4 : Ipv4Addr → ℕ → SocketAddr
socket_addr_v4 (a, b, c, d) p = v4 a b c d p

pub record AllocationTable : Type 0 where
  pub allocations : List (SocketAddr × Allocation)
  pub port_allocator : PortAllocator
  pub bind_addr : Ipv4Addr
  pub external_addr : Ipv4Addr
  pub realm : Text
  pub stats : ServerStats
  pub max_concurrent_allocations : Option ℕ
  pub max_allocation_duration_secs : Option ℕ
  pub bandwidth_manager : BandwidthManager

unfoldable pub with_port_range_and_bind_addr :
    Ipv4Addr → Ipv4Addr → Text → ℕ → ℕ → Option ℕ → Option ℕ → ℕ → AllocationTable
with_port_range_and_bind_addr external bind realm min_port max_port concurrent duration now =
    record {
      allocations = [];
      port_allocator = Bitmap.new min_port max_port;
      bind_addr = bind;
      external_addr = external;
      realm = realm;
      stats = record {
        total_allocations = 0;
        active_allocations = 0;
        total_bytes_relayed = 0;
        total_messages = 0;
      };
      max_concurrent_allocations = concurrent;
      max_allocation_duration_secs = duration;
      bandwidth_manager = manager none now;
    }

-- What both removals do besides the count of active allocations.
unfoldable pub forget : (SocketAddr → Text) → AllocationTable → SocketAddr → AllocationTable
forget to_string t relayed_addr = record t {
  allocations = remove SocketAddr-discrete relayed_addr t.allocations;
  port_allocator = (release t.port_allocator (port relayed_addr)).0;
  bandwidth_manager = unregister_allocation t.bandwidth_manager (to_string relayed_addr);
}

abbrev pub without_channels : Option ChannelTable → SocketAddr → Option ChannelTable
without_channels none relayed_addr = none
without_channels (some channels) relayed_addr = some (remove_for_relayed channels relayed_addr).0

abbrev pub less_active : AllocationTable → ℕ → AllocationTable
less_active t n = record t {
  stats = record t.stats { active_allocations = fetch_sub t.stats.active_allocations n };
}

unfoldable pub remove_allocation :
    (SocketAddr → Text)
    → AllocationTable
    → SocketAddr
    → Option ChannelTable
    → (AllocationTable × Option ChannelTable) × Option Allocation
remove_allocation to_string t relayed_addr channels =
    elim (lookup SocketAddr-discrete relayed_addr t.allocations) [
      | none ↦ ((t, channels), none)
      | some a ↦ (
        (less_active (forget to_string t relayed_addr) 1, without_channels channels relayed_addr),
        some a,
      )
    ]

unfoldable pub refresh_allocation :
    AllocationTable → SocketAddr → ℕ → AllocationTable × Result (Unit {0})
refresh_allocation t relayed_addr lifetime =
    elim (lookup SocketAddr-discrete relayed_addr t.allocations) [
      | none ↦ (t, err not_found)
      | some a ↦ (
        record t {
          allocations =
              insert SocketAddr-discrete relayed_addr (record a { lifetime = lifetime * nanos })
                t.allocations;
        },
        ok tt,
      )
    ]

-- The loop of `cleanup_expired` over the expired addresses; the count of those removed.
unfoldable pub sweep :
    (SocketAddr → Text)
    → AllocationTable
    → Option ChannelTable
    → List SocketAddr
    → (AllocationTable × Option ChannelTable) × ℕ
sweep to_string t channels [] = ((t, channels), 0)
sweep to_string t channels (addr ∷ expired) = elim (lookup SocketAddr-discrete addr t.allocations) [
  | none ↦ sweep to_string t channels expired
  | some a ↦
      let (state, count) =
        sweep to_string (forget to_string t addr) (without_channels channels addr) expired in
      (state, count + 1)
]

unfoldable pub cleanup_expired :
    (SocketAddr → Text)
    → AllocationTable
    → Option ChannelTable
    → ℕ
    → (AllocationTable × Option ChannelTable) × ℕ
unfolding is_expired
cleanup_expired to_string t channels now =
    let expired = map (λ e. e.0) (retain (λ e. is_expired e.1 now) t.allocations) in
    let ((t', channels'), count) = sweep to_string t channels expired in
    if ltb 0 count then ((less_active t' count, channels'), count) else ((t', channels'), count)
