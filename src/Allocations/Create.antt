-- ===== src/Allocations/Create.antt =====
-- src/allocation.rs, `AllocationTable::create_allocation`. An attempt is the two draws of the port
-- allocator and the outcome of binding the socket: none, or the text of the error.
use miuturn.Common.{
  ℕ, zero, suc, ◌+◌, ◌*◌, List, [], Option, none, some, Bool, false, leb, min, Text, if◌then◌else◌,
}
use miuturn.Common.Map.{insert}
use miuturn.Net.{SocketAddr, SocketAddr-discrete}
use miuturn.Errors.{
  Error, Result, ok, err, allocation_quota_reached, relay_port_exhausted, relay_bind_failed,
}
use miuturn.Bandwidth.Limiter.{nanos}
use miuturn.Bandwidth.Trackers.{fetch_add, register_allocation}
use miuturn.Ports.Bitmap.{PortAllocator, allocate, release}
use miuturn.Allocations.Table.{Allocation, AllocationTable, Ipv4Addr, socket_addr_v4}

pub record Attempt : Type 0 where
  pub draw_1 : ℕ
  pub draw_2 : ℕ
  pub failure : Option Text

abbrev pub max_attempts : ℕ
max_attempts = 100

-- The error after the last attempt.
abbrev pub bind_error : Option (SocketAddr × Text) → Error
bind_error none = relay_port_exhausted
bind_error (some (addr, source)) = relay_bind_failed addr source

-- The loop that looks for a port: the attempts left, the number of the next one, and the last
-- failure to bind.
unfoldable pub bind_relay :
    Ipv4Addr
    → (ℕ → Attempt)
    → PortAllocator
    → ℕ
    → ℕ
    → Option (SocketAddr × Text)
    → PortAllocator × Result ℕ
bind_relay bind world p zero attempts last = (p, err (bind_error last))
bind_relay bind world p (suc left) attempts last =
    let (p', found) = allocate p (world attempts).draw_1 (world attempts).draw_2 in
    elim found [
      | none ↦ (p', err relay_port_exhausted)
      | some port ↦ elim (world attempts).failure [
        | none ↦ (p', ok port)
        | some source ↦
            bind_relay bind world (release p' port).0 left (attempts + 1)
              (some (socket_addr_v4 bind port, source))
      ]
    ]

abbrev pub quota_reached : AllocationTable → Bool
quota_reached t = elim t.max_concurrent_allocations [
  | none ↦ false
  | some most ↦ leb most t.stats.active_allocations
]

-- The lifetime asked for, 600 seconds by default, and at most the configured one.
abbrev pub lifetime_secs : AllocationTable → Option ℕ → ℕ
lifetime_secs t requested =
    let asked : ℕ = elim requested [ none ↦ 600 | some secs ↦ secs ] in
    elim t.max_allocation_duration_secs [ none ↦ asked | some most ↦ min asked most ]

abbrev pub with_relay : List ℕ → SocketAddr → SocketAddr → ℕ → ℕ → ℕ → Allocation
with_relay id relayed_addr client_addr lifetime relay now = record {
  id = id;
  relayed_addr = relayed_addr;
  client_addr = client_addr;
  created_at = now;
  lifetime = lifetime;
  five_tuple = (client_addr, relayed_addr);
  relay = some relay;
  permissions = [];
  bytes_forwarded = 0;
  messages_forwarded = 0;
}

-- The allocation enters the table, the counters and the bandwidth manager.
unfoldable pub enter : (SocketAddr → Text) → AllocationTable → Allocation → ℕ → AllocationTable
enter to_string t a now = record t {
  allocations = insert SocketAddr-discrete a.relayed_addr a t.allocations;
  stats = record t.stats {
    total_allocations = fetch_add t.stats.total_allocations 1;
    active_allocations = fetch_add t.stats.active_allocations 1;
  };
  bandwidth_manager = register_allocation t.bandwidth_manager (to_string a.relayed_addr) none now;
}

-- `id` is the random identifier, `relay` the socket that was bound.
unfoldable pub create_allocation :
    (SocketAddr → Text)
    → AllocationTable
    → (ℕ → Attempt)
    → SocketAddr
    → Option ℕ
    → List ℕ
    → ℕ
    → ℕ
    → AllocationTable × Result Allocation
create_allocation to_string t world client_addr requested id relay now =
    let lifetime = lifetime_secs t requested * nanos in
    let (p, found) = bind_relay t.bind_addr world t.port_allocator max_attempts 0 none in
    let t' = record t { port_allocator = p } in
    if quota_reached t then (t, err allocation_quota_reached) else elim found [
      | err e ↦ (t', err e)
      | ok port ↦
          let a =
            with_relay id (socket_addr_v4 t.external_addr port) client_addr lifetime relay now in
          (enter to_string t' a now, ok a)
    ]
