-- ===== src/Allocations/Histories.antt =====
-- src/allocation.rs, `AllocationTable`: any operations on a new table.
use miuturn.Common.{
  ℕ, ◌-◌, ◌^◌, ◌≤◌, ◌<◌, refl, ap, List, [], ◌∷◌, Option, inl, inr, ltb, Bool-cases, arith, Text,
  map, retain,
}
use miuturn.Net.{SocketAddr}
use miuturn.Channels.Table.{ChannelTable}
use miuturn.Ports.Calls.{new-IsValid, new_free}
use miuturn.Allocations.Table.{
  AllocationTable, ServerStats, Ipv4Addr, remove_allocation, refresh_allocation, cleanup_expired,
  sweep, with_port_range_and_bind_addr, is_expired,
}
use miuturn.Allocations.Create.{Attempt, create_allocation}
use miuturn.Allocations.Preserves.{
  State, IsTable, create_allocation-IsTable, remove_allocation-IsTable, refresh_allocation-IsTable,
  sweep-OwnsAll,
}

-- A call of the table. The clock, the attempts to bind, the random identifier and the socket come
-- with it.
pub data Call : Type 0 where
  create : (ℕ → Attempt) → SocketAddr → Option ℕ → List ℕ → ℕ → ℕ → Call
  remove : SocketAddr → Call
  refresh : SocketAddr → ℕ → Call
  cleanup : ℕ → Call

pub new-IsTable :
    (external bind : Ipv4Addr) (realm : Text) (min_port max_port : ℕ)
    (concurrent duration : Option ℕ) (now : ℕ)
    → min_port ≤ max_port
    → max_port < 2 ^ 16
    → max_port - min_port < 2 ^ 16 - 1
    → IsTable (
        with_port_range_and_bind_addr external bind realm min_port max_port concurrent duration now)
unfolding with_port_range_and_bind_addr
new-IsTable external bind realm min_port max_port concurrent duration now h hm hr = record {
  owns = record {
    once = tt;
    keys = tt;
    bitmap = (new-IsValid min_port max_port h hm hr).bitmap;
    owned = λ q. new_free min_port max_port q;
  };
  active = refl;
}

module _ (to_string : SocketAddr → Text) where
  unfoldable pub step : State → Call → State
  step (t, channels) (create world client_addr requested id relay now) =
      ((create_allocation to_string t world client_addr requested id relay now).0, channels)
  step (t, channels) (remove addr) = (remove_allocation to_string t addr channels).0
  step (t, channels) (refresh addr lifetime) = ((refresh_allocation t addr lifetime).0, channels)
  step (t, channels) (cleanup now) = (cleanup_expired to_string t channels now).0

  unfoldable pub run : State → List Call → State
  run s [] = s
  run s (c ∷ calls) = run (step s c) calls

  pub cleanup_expired-IsTable :
      (t : AllocationTable) (channels : Option ChannelTable) (now : ℕ)
      → IsTable t
      → IsTable (cleanup_expired to_string t channels now).0.0
  unfolding cleanup_expired
  cleanup_expired-IsTable t channels now v =
      let expired : List SocketAddr =
        map (λ e. e.0) (retain (λ e. is_expired e.1 now) t.allocations) in
      let (o, total, same) = sweep-OwnsAll to_string t channels expired v.owns in
      let count : ℕ = (sweep to_string t channels expired).1 in
      let active = ap (λ (st : ServerStats). st.active_allocations) same in
      elim (Bool-cases (ltb 0 count)) [
        | inl some_gone ↦
            rw (some_gone, cleanup_expired)
              (record { owns = o; active = omega (arith, active, total, v.active) })
        | inr none_gone ↦
            rw (none_gone, cleanup_expired)
              (record { owns = o; active = ground (arith, active, total, v.active) })
      ]

  step-IsTable : (s : State) (c : Call) → IsTable s.0 → IsTable (step s c).0
  unfolding step
  step-IsTable (t, channels) (create world client_addr requested id relay now) v =
      create_allocation-IsTable to_string t world client_addr requested id relay now v
  step-IsTable (t, channels) (remove addr) v = remove_allocation-IsTable to_string t addr channels v
  step-IsTable (t, channels) (refresh addr lifetime) v =
      refresh_allocation-IsTable to_string t addr lifetime v
  step-IsTable (t, channels) (cleanup now) v = cleanup_expired-IsTable t channels now v

  keeps : (s : State) (calls : List Call) → IsTable s.0 → IsTable (run s calls).0
  unfolding run
  keeps s [] v = v
  keeps s (c ∷ calls) v = keeps (step s c) calls (step-IsTable s c v)

  -- After any calls on a new table, each address has one allocation, of that address; a port is
  -- allocated exactly when it is the relay port of an allocation; and the counter of active
  -- allocations is their number, as a 64-bit number. The range of ports is not empty and not all
  -- of them.
  pub run-IsTable :
      (external bind : Ipv4Addr) (realm : Text) (min_port max_port : ℕ)
      (concurrent duration : Option ℕ) (now : ℕ) (channels : Option ChannelTable)
      (calls : List Call)
      → min_port ≤ max_port
      → max_port < 2 ^ 16
      → max_port - min_port < 2 ^ 16 - 1
      → IsTable
          (run
            (
              with_port_range_and_bind_addr external bind realm min_port max_port concurrent
                  duration now,
              channels,
            )
            calls).0
  run-IsTable external bind realm min_port max_port concurrent duration now channels calls h hm hr =
      keeps _ calls
        (new-IsTable external bind realm min_port max_port concurrent duration now h hm hr)
