-- ===== src/Server/Preserves.antt =====
-- src/server.rs: every handler keeps the tables consistent.
use miuturn.Common.{
  ℕ, ◌≡◌, ◌≢◌, refl, sym, subst, Option, none, some, inl, inr, ◌==◌, Bool-cases, arith, Text,
  length, ltb,
}
use mathlib.Core.Path.{subst₂}
use miuturn.Net.{SocketAddr}
use miuturn.Message.Types.{Message}
use miuturn.Message.AttrType
use miuturn.Message.Types.{cookie}
use miuturn.Message.Address.{decode_xor_address}
use miuturn.Message.Codec.{get_attribute}
use miuturn.Channels.Table.{ChannelTable}
use miuturn.Allocations.Permissions.{find_allocation_by_client}
use miuturn.Allocations.Table.{AllocationTable}
use miuturn.Server.State.{Externals, Moment, TurnServer, Reply, create_401_response}
use miuturn.Server.Verify.{
  Verdict, accepted, refused, failed, verify_turn_auth, conclude, with_auth,
}
use miuturn.Server.Handlers.{set_tables, allocate_for, clear_client, handle_allocate, get_lifetime}
use miuturn.Server.Requests.{
  handle_refresh, refresh_for, handle_create_permission, permit_for, handle_channel_bind, bind_for,
  handle_send, peers_of,
}
use miuturn.Server.Dispatch.{process_message}
use miuturn.Server.Branches.{option_case, bool_case, by_method}
use miuturn.Server.Clients.{allocation_at, IsFree}
use miuturn.Server.Tables.{
  Consistent, found_client, Consistent-bind, refresh_allocation-Consistent,
  remove_allocation-Consistent, create_allocation-Consistent,
}
use miuturn.Server.Permits.{add_permissions-Consistent, send_to_peer-Consistent}

abbrev pub IsServer : TurnServer → Type 0
IsServer server = Consistent server.allocation_table server.channel_table

conclude-IsServer :
    (result : TurnServer × Verdict) (handler : TurnServer → Text → TurnServer × Reply)
    → IsServer result.0
    → ((s : TurnServer) (username : Text) → IsServer s → IsServer (handler s username).0)
    → IsServer (conclude result handler).0
conclude-IsServer (s, failed) handler v keeps = v
conclude-IsServer (s, refused bytes) handler v keeps = v
conclude-IsServer (s, accepted username) handler v keeps = keeps s username v

abbrev pub Kept : TurnServer × Reply → Type 0
Kept r = IsServer r.0

some_path : {c c' : ChannelTable} → some c ≡ some c' → c ≡ c'
some_path e = cc

-- The state after a removal or a clean-up, which answers with the channels that it was given.
pub set_tables-IsServer :
    (server : TurnServer) (state : AllocationTable × Option ChannelTable) (channels : ChannelTable)
    → state.1 ≡ some channels
    → Consistent state.0 channels
    → IsServer (set_tables server state)
set_tables-IsServer server (t, none) channels e v = absurd (ground (arith, e))
set_tables-IsServer server (t, some c) channels e v =
    subst (λ x. Consistent t x) (sym (some_path e)) v

set_tables-table :
    (server : TurnServer) (state : AllocationTable × Option ChannelTable)
    → (set_tables server state).allocation_table ≡ state.0
set_tables-table server (t, none) = refl
set_tables-table server (t, some c) = refl

module _ (ext : Externals) (msg : Message) (client : SocketAddr) (at : Moment) where
  -- Authentication touches neither table.
  pub verify_turn_auth-tables :
      (server : TurnServer)
      → ((verify_turn_auth ext server msg client at).0.allocation_table ≡ server.allocation_table)
        × ((verify_turn_auth ext server msg client at).0.channel_table ≡ server.channel_table)
  unfolding verify_turn_auth create_401_response
  verify_turn_auth-tables server = ground arith

  with_auth-IsServer :
      (server : TurnServer) (handler : TurnServer → Text → TurnServer × Reply)
      → IsServer server
      → ((s : TurnServer) (username : Text) → IsServer s → IsServer (handler s username).0)
      → IsServer (with_auth ext server msg client at handler).0
  with_auth-IsServer server handler v keeps =
      let (same, same') = verify_turn_auth-tables server in
      conclude-IsServer (verify_turn_auth ext server msg client at) handler
        (subst₂ Consistent (sym same) (sym same') v) keeps

  -- Whether the client had an allocation or not, it has none afterwards.
  clear_client-IsServer :
      (server : TurnServer)
      → IsServer server
      → IsServer (clear_client ext server client)
        × IsFree client (clear_client ext server client).allocation_table.allocations
  unfolding clear_client
  clear_client-IsServer server v = elim (found_client server.allocation_table client v.table) [
    | inl (e, free) ↦ rw (e, clear_client) (v, free)
    | inr (addr, a, e, first, there, mine) ↦
        let (channels, kept, free) =
          remove_allocation-Consistent server.allocation_table server.channel_table v ext.print_addr
            addr a there in
        rw (e, clear_client)
          (
            set_tables-IsServer server _ _ channels kept,
            subst₂ (λ c (t : AllocationTable). IsFree c t.allocations) mine
                (sym (set_tables-table server _)) free,
          )
  ]

  allocate_for-IsServer :
      (server : TurnServer) (username : Text) (lifetime : ℕ)
      → IsServer server
      → IsServer (allocate_for ext server msg client at username lifetime).0
  unfolding allocate_for
  allocate_for-IsServer server username lifetime v =
      let (kept, free) = clear_client-IsServer server v in
      let cleared : TurnServer = clear_client ext server client in
      let created =
        create_allocation-Consistent cleared.allocation_table cleared.channel_table kept
          ext.print_addr at.world client (some lifetime) at.id at.relay at.now free in
      ground (arith, created)

  refresh_for-IsServer :
      (server : TurnServer) (username : Text) (lifetime : ℕ)
      → IsServer server
      → IsServer (refresh_for ext server msg client at username lifetime).0
  unfolding refresh_for
  refresh_for-IsServer server username lifetime v =
      elim (found_client server.allocation_table client v.table) [
        | inl (e, free) ↦ rw (e, refresh_for) v
        | inr (addr, a, e, first, there, mine) ↦ elim (Bool-cases (lifetime == 0)) [
          | inl ends ↦
              let (channels, kept, free) =
                remove_allocation-Consistent server.allocation_table server.channel_table v
                  ext.print_addr addr a there in
              rw (e, ends, refresh_for) (set_tables-IsServer server _ _ channels kept)
          | inr stays ↦
              rw (e, stays, refresh_for)
                (refresh_allocation-Consistent server.allocation_table server.channel_table v addr
                  lifetime)
        ]
      ]

  permit_for-IsServer :
      (server : TurnServer) (username : Text)
      → IsServer server
      → IsServer (permit_for ext server msg client at username).0
  unfolding permit_for
  permit_for-IsServer server username v = ground (
    arith,
    add_permissions-Consistent server.allocation_table server.channel_table client
        (peers_of msg.attributes) v,
  )

  bind_for-IsServer :
      (server : TurnServer) (username : Text)
      → IsServer server
      → IsServer (bind_for ext server msg client at username).0
  unfolding bind_for
  bind_for-IsServer server username v = elim (found_client server.allocation_table client v.table) [
    | inl (e, free) ↦ rw (e, bind_for) v
    | inr (addr, a, e, first, there, mine) ↦
        let exists : allocation_at addr server.allocation_table.allocations ≢ none =
          λ gone. ground (arith, there, gone) in
        rw (e, bind_for)
          (option_case Kept (get_attribute msg AttrType.peer_address) v (λ peer_attr.
            option_case Kept (get_attribute msg AttrType.channel_number) v (λ channel_attr.
              bool_case Kept (ltb (length channel_attr.value) 2) v (
                Consistent-bind server.allocation_table server.channel_table v _ _ addr at.now
                  exists))))
  ]

  handle_send-IsServer :
      (server : TurnServer) → IsServer server → IsServer (handle_send server msg client at).0
  unfolding handle_send
  handle_send-IsServer server v =
      option_case Kept (find_allocation_by_client server.allocation_table client) v (λ relayed_addr.
        option_case Kept (get_attribute msg AttrType.peer_address) v (λ peer_attr.
          option_case Kept (decode_xor_address peer_attr.value cookie) v (λ peer_addr.
            option_case Kept (get_attribute msg AttrType.data_attribute) v (λ data_attr.
              send_to_peer-Consistent server.allocation_table server.channel_table client peer_addr
                data_attr.value at.sent v))))

  handle_allocate-IsServer :
      (server : TurnServer)
      → IsServer server
      → IsServer (handle_allocate ext server msg client at).0
  unfolding handle_allocate
  handle_allocate-IsServer server v = with_auth-IsServer server _ v (λ s username w.
      option_case Kept (get_lifetime msg) w
        (λ lifetime. allocate_for-IsServer s username lifetime w))

  handle_refresh-IsServer :
      (server : TurnServer) → IsServer server → IsServer (handle_refresh ext server msg client at).0
  unfolding handle_refresh
  handle_refresh-IsServer server v = with_auth-IsServer server _ v (λ s username w.
      option_case Kept (get_lifetime msg) w
        (λ lifetime. refresh_for-IsServer s username lifetime w))

  pub process_message-IsServer :
      (server : TurnServer)
      → IsServer server
      → IsServer (process_message ext server msg client at).0
  unfolding process_message handle_create_permission handle_channel_bind
  process_message-IsServer server v = bool_case Kept _ v (
      by_method Kept (msg.header).method _ _ _ _ _ _ _ (handle_allocate-IsServer server v)
        (handle_refresh-IsServer server v) (with_auth-IsServer server _ v permit_for-IsServer)
        (with_auth-IsServer server _ v bind_for-IsServer) (λ e. handle_send-IsServer server v) v v)
