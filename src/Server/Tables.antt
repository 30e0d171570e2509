-- ===== src/Server/Tables.antt =====
-- src/server.rs: the two tables of the server, and what each step does to them.
use miuturn.Common.{
  ℕ, ◌≡◌, ◌≢◌, refl, ap, sym, subst, List, Option, none, some, inl, inr, ◌⊎◌, Option-cases, arith,
  Text,
}
use miuturn.Common.Map.{lookup, insert, All-lookup, length-insert_old}
use miuturn.Net.{SocketAddr, SocketAddr-discrete}
use miuturn.Channels.Table.{ChannelTable, bind, remove_for_relayed, same}
use miuturn.Channels.Table
use miuturn.Channels.Laws.{IsValid}
use miuturn.Channels.Histories.{bind-IsValid, step-IsValid, clears, cleans}
use miuturn.Channels.Histories
use miuturn.Allocations.Table.{
  Allocation, AllocationTable, remove_allocation, refresh_allocation, forget,
}
use miuturn.Allocations.Create.{Attempt, create_allocation}
use miuturn.Allocations.Ownership.{IsRelay, Owns-replace}
use miuturn.Allocations.Preserves.{
  IsTable, create_allocation-IsTable, remove_allocation-IsTable, create_allocation-Enters,
}
use miuturn.Allocations.Permissions.{of_client, find_allocation_by_client}
use miuturn.Server.Clients.{
  allocation_at, Linked, IsFree, of_client-some, of_client-none, Linked-replace, Linked-insert,
  Linked-remove, Linked-bind, Linked-cleanup_expired, IsFree-remove,
}

-- The ports are those of the allocations, the channels are well formed, no client has two
-- allocations, and every channel belongs to an allocation that exists.
pub record Consistent (t : AllocationTable) (channels : ChannelTable) : Type 0 where
  pub table : IsTable t
  pub valid : IsValid channels
  pub linked : Linked t.allocations channels

-- What a search by client finds.
pub found_client :
    (t : AllocationTable) (client : SocketAddr)
    → IsTable t
    → (find_allocation_by_client t client ≡ none × IsFree client t.allocations)
      ⊎ ((addr : SocketAddr) × (a : Allocation) × (find_allocation_by_client t client ≡ some addr)
          × (of_client client t.allocations ≡ some (addr, a))
          × (allocation_at addr t.allocations ≡ some a)
          × (a.client_addr ≡ client))
unfolding find_allocation_by_client
found_client t client v = elim (Option-cases (of_client client t.allocations)) [
  | inl e ↦ inl (rw (e, find_allocation_by_client) refl, of_client-none client t.allocations e)
  | inr ((addr, a), e) ↦
      let (there, mine) = of_client-some client addr a t.allocations v.owns.once e in
      let key =
        All-lookup SocketAddr-discrete (IsRelay t.external_addr) addr a t.allocations v.owns.keys
          there in
      inr (addr, a, rw (e, find_allocation_by_client) (ap some key.1), e, there, mine)
]

module _ (t : AllocationTable) (channels : ChannelTable) (v : Consistent t channels) where
  -- An allocation is changed, but not its addresses.
  pub Consistent-replace :
      (addr : SocketAddr) (a a' : Allocation)
      → allocation_at addr t.allocations ≡ some a
      → a'.relayed_addr ≡ a.relayed_addr
      → a'.client_addr ≡ a.client_addr
      → Consistent
          (record t { allocations = insert SocketAddr-discrete addr a' t.allocations })
          channels
  Consistent-replace addr a a' there same_relay same_client = record {
    table = record {
      owns =
          Owns-replace t.external_addr t.allocations t.port_allocator v.table.owns addr a there a'
            same_relay;
      active = omega (
        arith,
        length-insert_old SocketAddr-discrete addr a' a t.allocations there,
        v.table.active,
      );
    };
    valid = v.valid;
    linked = Linked-replace t.allocations channels v.linked addr a a' there same_client;
  }

  pub Consistent-bind :
      (c : ℕ) (peer addr : SocketAddr) (now : ℕ)
      → allocation_at addr t.allocations ≢ none
      → Consistent t (bind channels c peer addr now).0
  Consistent-bind c peer addr now there = record {
    table = v.table;
    valid = bind-IsValid channels c peer addr now v.valid;
    linked = Linked-bind t.allocations channels v.linked c peer addr now there;
  }

  pub Consistent-clean_channels : (now : ℕ) → Consistent t (Table.cleanup_expired channels now).0
  unfolding Histories.step
  Consistent-clean_channels now = record {
    table = v.table;
    valid = step-IsValid channels (cleans now) v.valid;
    linked = Linked-cleanup_expired t.allocations channels v.linked now v.valid;
  }

  pub refresh_allocation-Consistent :
      (addr : SocketAddr) (lifetime : ℕ)
      → Consistent (refresh_allocation t addr lifetime).0 channels
  unfolding refresh_allocation
  refresh_allocation-Consistent addr lifetime =
      elim (Option-cases (lookup SocketAddr-discrete addr t.allocations)) [
        | inl e ↦ rw (e, refresh_allocation) v
        | inr (a, e) ↦ rw (e, refresh_allocation) (Consistent-replace addr a _ e refl refl)
      ]

  pub remove_allocation-Consistent :
      (to_string : SocketAddr → Text) (addr : SocketAddr) (a : Allocation)
      → allocation_at addr t.allocations ≡ some a
      → (remove_allocation to_string t addr (some channels)).0.1
          ≡ some (remove_for_relayed channels addr).0
        × Consistent
            (remove_allocation to_string t addr (some channels)).0.0
            (remove_for_relayed channels addr).0
        × IsFree a.client_addr (remove_allocation to_string t addr (some channels)).0.0.allocations
  unfolding remove_allocation forget Histories.step
  remove_allocation-Consistent to_string addr a there =
      let table = remove_allocation-IsTable to_string t addr (some channels) v.table in
      (
        rw (there, remove_allocation) refl,
        record {
          table = table;
          valid = step-IsValid channels (clears addr) v.valid;
          linked =
              rw (there, remove_allocation)
                (Linked-remove t.allocations channels v.linked addr v.valid);
        },
        rw (there, remove_allocation) (IsFree-remove t.allocations channels v.linked addr a there),
      )

  pub create_allocation-Consistent :
      (to_string : SocketAddr → Text) (world : ℕ → Attempt) (client : SocketAddr)
      (requested : Option ℕ) (id : List ℕ) (relay now : ℕ)
      → IsFree client t.allocations
      → Consistent (create_allocation to_string t world client requested id relay now).0 channels
  create_allocation-Consistent to_string world client requested id relay now free = record {
    table = create_allocation-IsTable to_string t world client requested id relay now v.table;
    valid = v.valid;
    linked =
        elim (create_allocation-Enters to_string t world client requested id relay now v.table) [
          | inl e ↦ subst (λ m. Linked m channels) (sym e) v.linked
          | inr (a, mine, e) ↦
              subst (λ m. Linked m channels) (sym e)
                (Linked-insert t.allocations channels v.linked a.relayed_addr a
                  (subst (λ c. IsFree c t.allocations) (sym mine) free))
        ];
  }
