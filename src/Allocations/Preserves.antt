-- ===== src/Allocations/Preserves.antt =====
-- src/allocation.rs, `AllocationTable`: each operation keeps the ports with the allocations.
use miuturn.Common.{
  ℕ, ◌+◌, ◌*◌, ◌%◌, ◌^◌, ◌≡◌, refl, sym, ap, ◌⊎◌, ◌∙◌, List, [], ◌∷◌, Option, none, some, true,
  false, inl, inr, Option-cases, Bool-cases, arith, length, Text, subst,
}
use miuturn.Common.Map.{lookup, insert, length-insert_old, length-remove}
use miuturn.Net.{SocketAddr, SocketAddr-discrete}
use miuturn.Bandwidth.Limiter.{nanos}
use miuturn.Errors.{Error, Result, ok, err}
use miuturn.Channels.Table.{ChannelTable}
use miuturn.Ports.Bitmap.{PortAllocator}
use miuturn.Ports.Outcome.{Takes}
use miuturn.Allocations.Table.{
  Allocation, AllocationTable, socket_addr_v4, forget, without_channels, sweep, remove_allocation,
  refresh_allocation,
}
use miuturn.Allocations.Create.{
  Attempt, create_allocation, bind_relay, max_attempts, quota_reached, enter, with_relay,
  lifetime_secs,
}
use miuturn.Allocations.Binding.{Promises, bind_relay-Promises}
use miuturn.Allocations.Ownership.{
  Owns, Owns-Unchanged, Owns-insert, length-enter, Owns-remove, Owns-replace,
}

-- The table with its channels, as the operations pass it on.
abbrev pub State : Type 0
State = AllocationTable × Option ChannelTable

-- The allocations own their ports, and the counter of active ones counts them.
abbrev pub OwnsAll : AllocationTable → Type 0
OwnsAll t = Owns t.external_addr t.allocations t.port_allocator

pub record IsTable (t : AllocationTable) : Type 0 where
  pub owns : OwnsAll t
  pub active : t.stats.active_allocations ≡ length t.allocations % 2 ^ 64

module _ (to_string : SocketAddr → Text) where
  pub forget-OwnsAll :
      (t : AllocationTable) (addr : SocketAddr) (a : Allocation)
      → OwnsAll t
      → lookup SocketAddr-discrete addr t.allocations ≡ some a
      → OwnsAll (forget to_string t addr)
        × (length (forget to_string t addr).allocations + 1 ≡ length t.allocations)
  unfolding forget
  forget-OwnsAll t addr a o e = (
    Owns-remove t.external_addr t.allocations t.port_allocator o addr a e,
    length-remove SocketAddr-discrete addr a t.allocations o.once e,
  )

  module _ (t : AllocationTable) (world : ℕ → Attempt) (client_addr : SocketAddr)
      (requested : Option ℕ) (id : List ℕ) (relay now : ℕ) (v : IsTable t) where
    bind_result : PortAllocator × Result ℕ
    bind_result = bind_relay t.bind_addr world t.port_allocator max_attempts 0 none

    new_allocation : ℕ → Allocation
    new_allocation q =
        with_relay id (socket_addr_v4 t.external_addr q) client_addr
          (lifetime_secs t requested * nanos) relay now

    created : AllocationTable
    created = (create_allocation to_string t world client_addr requested id relay now).0

    created_ok :
        (p : PortAllocator) (q : ℕ)
        → bind_result ≡ (p, ok q)
        → quota_reached t ≡ false
        → created ≡ enter to_string (record t { port_allocator = p }) (new_allocation q) now
    unfolding created create_allocation bind_result new_allocation
    created_ok p q b room = ground (arith, b, room)

    created_err :
        (p : PortAllocator) (e : Error)
        → bind_result ≡ (p, err e)
        → quota_reached t ≡ false
        → created ≡ record t { port_allocator = p }
    unfolding created create_allocation bind_result
    created_err p e b room = ground (arith, b, room)

    created_full : quota_reached t ≡ true → created ≡ t
    unfolding created create_allocation
    created_full full = ground (arith, full)

    entered :
        (p : PortAllocator) (q : ℕ)
        → Takes t.port_allocator q p
        → IsTable (enter to_string (record t { port_allocator = p }) (new_allocation q) now)
    unfolding enter new_allocation
    entered p q k =
        let a : Allocation = new_allocation q in
        let added =
          length-enter t.external_addr t.allocations t.port_allocator p v.owns q a refl k in
        record {
          owns = Owns-insert t.external_addr t.allocations t.port_allocator p v.owns q a refl k;
          active = omega (arith, added, v.active);
        }

    after_binding :
        (r : PortAllocator × Result ℕ)
        → bind_result ≡ r
        → quota_reached t ≡ false
        → Promises t.port_allocator r
        → IsTable created
    after_binding (p, err e) b room u = subst IsTable (sym (created_err p e b room)) (record {
      owns = Owns-Unchanged t.external_addr t.allocations t.port_allocator p v.owns u;
      active = v.active;
    })
    after_binding (p, ok q) b room k = subst IsTable (sym (created_ok p q b room)) (entered p q k)

    -- The allocations afterwards: as before, or with a new one of the client.
    abbrev pub Enters : List (SocketAddr × Allocation) → Type 0
    Enters m =
        (m ≡ t.allocations)
        ⊎ ((a : Allocation) × (a.client_addr ≡ client_addr)
            × (m ≡ insert SocketAddr-discrete a.relayed_addr a t.allocations))

    Enters-after :
        (r : PortAllocator × Result ℕ)
        → bind_result ≡ r
        → quota_reached t ≡ false
        → Enters created.allocations
    Enters-after (p, err e) b room =
        inl (ap (λ (x : AllocationTable). x.allocations) (created_err p e b room))
    Enters-after (p, ok q) b room =
        let same = ap (λ (x : AllocationTable). x.allocations) (created_ok p q b room) in
        inr (new_allocation q, unfold new_allocation in refl, unfold enter in same)

    pub create_allocation-Enters :
        Enters
          (create_allocation to_string t world client_addr requested id relay now).0.allocations
    unfolding created bind_result
    create_allocation-Enters = elim (Bool-cases (quota_reached t)) [
      | inl full ↦ inl (ap (λ (x : AllocationTable). x.allocations) (created_full full))
      | inr room ↦ Enters-after bind_result refl room
    ]

    pub create_allocation-IsTable :
        IsTable (create_allocation to_string t world client_addr requested id relay now).0
    unfolding created bind_result
    create_allocation-IsTable = elim (Bool-cases (quota_reached t)) [
      | inl full ↦ subst IsTable (sym (created_full full)) v
      | inr room ↦
          after_binding bind_result refl room (
            bind_relay-Promises t.bind_addr world t.port_allocator max_attempts 0 none
              v.owns.bitmap)
    ]

  pub remove_allocation-IsTable :
      (t : AllocationTable) (addr : SocketAddr) (channels : Option ChannelTable)
      → IsTable t
      → IsTable (remove_allocation to_string t addr channels).0.0
  unfolding remove_allocation forget
  remove_allocation-IsTable t addr channels v =
      elim (Option-cases (lookup SocketAddr-discrete addr t.allocations)) [
        | inl none_there ↦ rw (none_there, remove_allocation) v
        | inr (a, there) ↦
            let (o, n) = forget-OwnsAll t addr a v.owns there in
            rw (there, remove_allocation) (record { owns = o; active = omega (arith, n, v.active) })
      ]

  pub refresh_allocation-IsTable :
      (t : AllocationTable) (addr : SocketAddr) (lifetime : ℕ)
      → IsTable t
      → IsTable (refresh_allocation t addr lifetime).0
  unfolding refresh_allocation
  refresh_allocation-IsTable t addr lifetime v =
      elim (Option-cases (lookup SocketAddr-discrete addr t.allocations)) [
        | inl none_there ↦ rw (none_there, refresh_allocation) v
        | inr (a, there) ↦
            rw (there, refresh_allocation)
              (record {
                owns =
                    Owns-replace t.external_addr t.allocations t.port_allocator v.owns addr a there
                      _ refl;
                active = omega (
                  arith,
                  length-insert_old SocketAddr-discrete addr _ a t.allocations there,
                  v.active,
                );
              })
      ]

  pub sweep-OwnsAll :
      (t : AllocationTable) (channels : Option ChannelTable) (expired : List SocketAddr)
      → OwnsAll t
      → let ((t', channels'), count) = sweep to_string t channels expired in
        OwnsAll t' × (length t'.allocations + count ≡ length t.allocations) × (t'.stats ≡ t.stats)
  unfolding sweep
  sweep-OwnsAll t channels [] o = (o, omega arith, refl)
  sweep-OwnsAll t channels (addr ∷ expired) o =
      elim (Option-cases (lookup SocketAddr-discrete addr t.allocations)) [
        | inl none_there ↦ rw (none_there, sweep) (sweep-OwnsAll t channels expired o)
        | inr (a, there) ↦
            let (o', n) = forget-OwnsAll t addr a o there in
            let (later, total, same) =
              sweep-OwnsAll (forget to_string t addr) (without_channels channels addr) expired o' in
            rw (there, sweep) (later, omega (arith, n, total), same ∙ unfold forget in refl)
      ]
