-- ===== src/Server/Permits.antt =====
-- src/server.rs: `add_permissions`, `send_to_peer` and the clean-up keep the tables consistent.
use miuturn.Common.{
  ℕ, ◌≡◌, ◌≢◌, refl, sym, subst, List, [], ◌∷◌, none, some, Bool, true, false, inl, inr, ◌⊎◌, Text,
  Bool-cases, Option-cases, arith, length, map, retain, ltb,
}
use miuturn.Common.Map.{IsMap, lookup, insert, All-lookup}
use miuturn.Net.{SocketAddr, SocketAddr-discrete}
use miuturn.Channels.Table.{ChannelTable, remove_for_relayed, same}
use miuturn.Channels.Laws.{IsValid}
use miuturn.Channels.Histories.{step-IsValid, clears}
use miuturn.Channels.Histories
use miuturn.Allocations.Table.{
  Allocation, AllocationTable, forget, sweep, cleanup_expired, is_expired,
}
use miuturn.Allocations.Histories.{cleanup_expired-IsTable}
use miuturn.Allocations.Preserves.{OwnsAll, forget-OwnsAll}
use miuturn.Allocations.Permissions.{
  Entry, of_client, contains, permit, permit_first, add_permissions,
}
use miuturn.Allocations.Relay.{send_to_peer, forwarded, counted}
use miuturn.Net.{ip}
use miuturn.Server.Clients.{Linked, of_client-some, Linked-remove}
use miuturn.Server.Tables.{Consistent, Consistent-replace}

permit_first-none :
    (client : SocketAddr) (peers : List SocketAddr) (m : List Entry)
    → of_client client m ≡ none
    → permit_first client peers m ≡ (m, false)
unfolding of_client permit_first
permit_first-none client peers [] e = refl
permit_first-none client peers ((addr, a) ∷ m) e = ground (arith, permit_first-none client peers m)

-- The first entry of the client is replaced.
permit_first-some :
    (client addr : SocketAddr) (a : Allocation) (peers : List SocketAddr) (m : List Entry)
    → IsMap m
    → of_client client m ≡ some (addr, a)
    → permit_first client peers m ≡ (
      insert SocketAddr-discrete addr (record a { permissions = permit peers a.permissions }) m,
      true,
    )
unfolding permit_first of_client
permit_first-some client addr a peers [] v e = absurd (ground (arith, e))
permit_first-some client addr a peers ((x, b) ∷ m) v e =
    elim (Bool-cases (same b.client_addr client)) [
      | inl mine ↦ ground (arith, mine, e)
      | inr other ↦
          let later : of_client client m ≡ some (addr, a) = ground (arith, other, e) in
          let there = (of_client-some client addr a m v.1 later).0 in
          let apart : addr ≢ x = All-lookup SocketAddr-discrete (λ z. z.0 ≢ x) addr a m v.0 there in
          ground (
            arith,
            other,
            permit_first-some client addr a peers m v.1 later,
            λ (q : x ≡ addr). apart (sym q),
          )
    ]

pub add_permissions-Consistent :
    (t : AllocationTable) (channels : ChannelTable) (client : SocketAddr) (peers : List SocketAddr)
    → Consistent t channels
    → Consistent (add_permissions t client peers).0 channels
unfolding add_permissions
add_permissions-Consistent t channels client peers v =
    elim (Option-cases (of_client client t.allocations)) [
      | inl e ↦ rw (permit_first-none client peers t.allocations e, add_permissions) v
      | inr ((addr, a), e) ↦
          let there = (of_client-some client addr a t.allocations v.table.owns.once e).0 in
          rw
            (
              permit_first-some client addr a peers t.allocations v.table.owns.once e,
              add_permissions,
            )
            (Consistent-replace t channels v addr a _ there refl refl)
    ]

Consistent-counted :
    (t : AllocationTable) (channels : ChannelTable) (n : ℕ)
    → Consistent t channels
    → Consistent (counted t n) channels
Consistent-counted t channels n v = record {
  table = record { owns = v.table.owns; active = v.table.active };
  valid = v.valid;
  linked = v.linked;
}

-- A packet that goes out changes the counters, and nothing else changes anything.
sent_cases :
    (t : AllocationTable) (client peer : SocketAddr) (payload : List ℕ) (sent : Bool)
    → ((send_to_peer t client peer payload sent).0 ≡ t)
      ⊎ ((addr : SocketAddr) × (a : Allocation) × (of_client client t.allocations ≡ some (addr, a))
          × ((send_to_peer t client peer payload sent).0
              ≡ counted
                  (record t {
                    allocations =
                        insert SocketAddr-discrete addr
                          (forwarded a (length payload))
                          t.allocations;
                  })
                  (length payload)))
unfolding send_to_peer
sent_cases t client peer payload sent = elim (Option-cases (of_client client t.allocations)) [
  | inl e ↦ inl (ground (arith, e))
  | inr ((addr, a), e) ↦ elim (Bool-cases (contains a.permissions (ip peer))) [
    | inr no_permission ↦ inl (ground (arith, e, no_permission))
    | inl may ↦ elim (Option-cases a.relay) [
      | inl no_relay ↦ inl (ground (arith, e, may, no_relay))
      | inr (socket, has) ↦ elim (Bool-cases sent) [
        | inr lost ↦ inl (ground (arith, e, may, has, lost))
        | inl went ↦ inr (addr, a, e, ground (arith, e, may, has, went))
      ]
    ]
  ]
]

pub send_to_peer-Consistent :
    (t : AllocationTable) (channels : ChannelTable) (client peer : SocketAddr) (payload : List ℕ)
    (sent : Bool)
    → Consistent t channels
    → Consistent (send_to_peer t client peer payload sent).0 channels
send_to_peer-Consistent t channels client peer payload sent v =
    elim (sent_cases t client peer payload sent) [
      | inl e ↦ subst (λ x. Consistent x channels) (sym e) v
      | inr (addr, a, e, changed) ↦
          let there = (of_client-some client addr a t.allocations v.table.owns.once e).0 in
          let replaced =
            Consistent-replace t channels v addr a (forwarded a (length payload)) there refl refl in
          subst (λ x. Consistent x channels) (sym changed)
            (Consistent-counted _ channels (length payload) replaced)
    ]

sweep-Linked :
    (to_string : SocketAddr → Text) (t : AllocationTable) (channels : ChannelTable)
    (expired : List SocketAddr)
    → OwnsAll t
    → IsValid channels
    → Linked t.allocations channels
    → (channels' : ChannelTable) × ((sweep to_string t (some channels) expired).0.1
        ≡ some channels')
      × IsValid channels'
      × Linked (sweep to_string t (some channels) expired).0.0.allocations channels'
unfolding sweep
sweep-Linked to_string t channels [] o v l = (channels, refl, v, l)
sweep-Linked to_string t channels (addr ∷ expired) o v l =
    elim (Option-cases (lookup SocketAddr-discrete addr t.allocations)) [
      | inl e ↦ rw (e, sweep) (sweep-Linked to_string t channels expired o v l)
      | inr (a, e) ↦
          rw (e, sweep)
            (sweep-Linked to_string (forget to_string t addr) (remove_for_relayed channels addr).0
              expired (forget-OwnsAll to_string t addr a o e).0
              (unfold Histories.step in step-IsValid channels (clears addr) v)
              (unfold forget in Linked-remove t.allocations channels l addr v))
    ]

pub cleanup_expired-Consistent :
    (to_string : SocketAddr → Text) (t : AllocationTable) (channels : ChannelTable) (now : ℕ)
    → Consistent t channels
    → (channels' : ChannelTable) × ((cleanup_expired to_string t (some channels) now).0.1
        ≡ some channels')
      × Consistent (cleanup_expired to_string t (some channels) now).0.0 channels'
unfolding cleanup_expired
cleanup_expired-Consistent to_string t channels now v =
    let expired : List SocketAddr =
      map (λ e. e.0) (retain (λ e. is_expired e.1 now) t.allocations) in
    let (channels', e, valid, linked) =
      sweep-Linked to_string t channels expired v.table.owns v.valid v.linked in
    let table = cleanup_expired-IsTable to_string t (some channels) now v.table in
    elim (Bool-cases (ltb 0 (sweep to_string t (some channels) expired).1)) [
      | inl gone ↦ (
        channels',
        rw (gone, cleanup_expired) e,
        record { table = table; valid = valid; linked = rw (gone, cleanup_expired) linked },
      )
      | inr none_gone ↦ (
        channels',
        rw (none_gone, cleanup_expired) e,
        record { table = table; valid = valid; linked = rw (none_gone, cleanup_expired) linked },
      )
    ]
