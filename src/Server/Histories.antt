-- ===== src/Server/Histories.antt =====
-- src/server.rs: the tables of the server after any datagrams and any rounds of the clean-ups.
use miuturn.Common.{
  ℕ, ◌-◌, ◌^◌, ◌≤◌, ◌<◌, List, [], ◌∷◌, Option, none, some, Bool, ltb, Text, length,
}
use miuturn.Net.{SocketAddr}
use miuturn.Message.Types.{Message}
use miuturn.Message.Codec.{parse}
use miuturn.Channels.Histories.{new-IsValid}
use miuturn.Allocations.Table.{Ipv4Addr, with_port_range_and_bind_addr}
use miuturn.Allocations.Histories.{new-IsTable}
use miuturn.Allocations.Relay.{from_peer}
use miuturn.Auth.Manager.{AuthManager}
use miuturn.Server.State.{Externals, Moment, TurnServer}
use miuturn.Server.Start.{with_port_range_limits_bind_address_and_password}
use miuturn.Server.Dispatch.{
  process_parsed, handle_tcp_message, handle_udp_message, is_channel_data_frame, loose_message,
  clean_allocations, clean_channels, clean_nonces,
}
use miuturn.Server.Branches.{option_case, bool_case}
use miuturn.Server.Clients.{Linked-new}
use miuturn.Server.Tables.{Consistent-clean_channels}
use miuturn.Server.Permits.{cleanup_expired-Consistent}
use miuturn.Server.Preserves.{IsServer, Kept, set_tables-IsServer, process_message-IsServer}

-- What reaches the server: a datagram or a message of a stream from a client, a datagram from a
-- peer at the relay of an allocation, a round of a task that cleans up, or a change of the users and
-- access rules by the administrator.
pub data Event : Type 0 where
  udp tcp : List ℕ → SocketAddr → Moment → Event
  peer : SocketAddr → SocketAddr → SocketAddr → List ℕ → List ℕ → Event
  allocations_tick channels_tick nonces_tick : ℕ → Event
  administered : AuthManager → Event

module _ (ext : Externals) where
  unfoldable pub step : TurnServer → Event → TurnServer
  step server (udp bytes client at) = (handle_udp_message ext server bytes client at).0
  step server (tcp bytes client at) = (handle_tcp_message ext server bytes client at).0
  step server (peer relay_bind_addr relayed_addr peer_addr payload transaction_id) =
      let t = server.allocation_table in
      record server {
        allocation_table = record t {
          stats =
              (from_peer t.stats server.channel_table relay_bind_addr relayed_addr peer_addr payload
                transaction_id).0;
        };
      }
  step server (allocations_tick now) = clean_allocations ext server now
  step server (channels_tick now) = clean_channels server now
  step server (nonces_tick now) = clean_nonces server now
  step server (administered manager) = record server { auth_manager = some manager }

  unfoldable pub run : TurnServer → List Event → TurnServer
  run server [] = server
  run server (e ∷ events) = run (step server e) events

  process_parsed-IsServer :
      (server : TurnServer) (msg : Option Message) (client : SocketAddr) (at : Moment)
      → IsServer server
      → Kept (process_parsed ext server msg client at)
  process_parsed-IsServer server none client at v = v
  process_parsed-IsServer server (some msg) client at v =
      process_message-IsServer ext msg client at server v

  step-IsServer : (server : TurnServer) (e : Event) → IsServer server → IsServer (step server e)
  unfolding step handle_udp_message handle_tcp_message clean_allocations clean_channels clean_nonces
      from_peer
  step-IsServer server (udp bytes client at) v = bool_case Kept (ltb (length bytes) 4) v (
      bool_case Kept (is_channel_data_frame bytes) v (
        option_case Kept (parse bytes)
          (process_parsed-IsServer server (loose_message bytes) client at v)
          (λ msg. process_message-IsServer ext msg client at server v)))
  step-IsServer server (tcp bytes client at) v =
      bool_case Kept (is_channel_data_frame bytes) v
        (process_parsed-IsServer server (parse bytes) client at v)
  step-IsServer server (peer relay_bind_addr relayed_addr peer_addr payload transaction_id) v =
      record {
        table = record { owns = v.table.owns; active = v.table.active };
        valid = v.valid;
        linked = v.linked;
      }
  step-IsServer server (allocations_tick now) v =
      let (channels, e, kept) =
        cleanup_expired-Consistent ext.print_addr server.allocation_table server.channel_table now
          v in
      set_tables-IsServer server _ channels e kept
  step-IsServer server (channels_tick now) v =
      Consistent-clean_channels server.allocation_table server.channel_table v now
  step-IsServer server (nonces_tick now) v = v
  step-IsServer server (administered manager) v = v

  keeps :
      (server : TurnServer) (events : List Event) → IsServer server → IsServer (run server events)
  unfolding run
  keeps server [] v = v
  keeps server (e ∷ events) v = keeps (step server e) events (step-IsServer server e v)

  -- After any datagrams, messages of streams, clean-ups and changes of the users on a server that
  -- has just started, the relay ports that are taken are those of the allocations, one allocation to
  -- an address, and the counter of active allocations is their number as a 64-bit number; no client
  -- has two allocations; every channel belongs to an allocation that exists, and is stored under its
  -- own number. The range of ports is not empty and not all of them.
  pub run-IsServer :
      (relay_addr relay_bind_addr : Ipv4Addr) (realm : Text) (min_port max_port : ℕ)
      (concurrent duration : Option ℕ) (password : Text) (auth_disabled : Bool) (now : ℕ)
      (events : List Event)
      → min_port ≤ max_port
      → max_port < 2 ^ 16
      → max_port - min_port < 2 ^ 16 - 1
      → IsServer (
          run
            (with_port_range_limits_bind_address_and_password relay_addr relay_bind_addr realm
              min_port max_port concurrent duration password auth_disabled now)
            events)
  unfolding with_port_range_limits_bind_address_and_password
  run-IsServer relay_addr relay_bind_addr realm min_port max_port concurrent duration password
        auth_disabled now events h hm hr =
      keeps _ events (record {
        table =
            new-IsTable relay_addr relay_bind_addr realm min_port max_port concurrent duration now h
              hm hr;
        valid = new-IsValid;
        linked = unfold with_port_range_and_bind_addr in Linked-new;
      })
