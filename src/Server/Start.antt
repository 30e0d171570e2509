-- ===== src/Server/Start.antt =====
-- src/server.rs, `TurnServer`: its construction and its settings. The two settings of the dump of
-- the statistics are left out with their fields.
use miuturn.Common.{ℕ, [], Option, none, some, Bool, true, false, Text}
use miuturn.Common.Texts.{codes}
use miuturn.Channels.Table
use miuturn.Allocations.Table.{Ipv4Addr, with_port_range_and_bind_addr}
use miuturn.Auth.Manager.{AuthManager}
use miuturn.Server.State.{TurnServer}

-- `CARGO_PKG_NAME/CARGO_PKG_VERSION`, of Cargo.toml.
abbrev pub default_server_name : Text
default_server_name = codes "miuturn/0.1.4"

-- The bandwidth that may be configured has no effect on the table that is made.
unfoldable pub with_port_range_limits_bind_address_and_password :
    Ipv4Addr → Ipv4Addr → Text → ℕ → ℕ → Option ℕ → Option ℕ → Text → Bool → ℕ → TurnServer
with_port_range_limits_bind_address_and_password relay_addr relay_bind_addr realm min_port max_port
      concurrent duration password auth_disabled now =
    record {
      allocation_table =
          with_port_range_and_bind_addr relay_addr relay_bind_addr realm min_port max_port
            concurrent duration now;
      channel_table = Table.new;
      realm = realm;
      nonce_map = [];
      password = password;
      auth_disabled = auth_disabled;
      auth_manager = none;
      server_name = default_server_name;
      stun_enabled = true;
      turn_enabled = true;
    }

unfoldable pub set_auth_manager : TurnServer → AuthManager → TurnServer
set_auth_manager server manager = record server { auth_manager = some manager }

unfoldable pub set_server_name : TurnServer → Text → TurnServer
set_server_name server name = record server { server_name = name }

unfoldable pub set_protocol_enabled : TurnServer → Bool → Bool → TurnServer
set_protocol_enabled server stun turn = record server { stun_enabled = stun; turn_enabled = turn }

abbrev pub enabled_protocol_label : Bool → Bool → Text
enabled_protocol_label true true = codes "STUN/TURN"
enabled_protocol_label true false = codes "STUN"
enabled_protocol_label false true = codes "TURN"
enabled_protocol_label false false = codes "disabled STUN/TURN"

unfoldable pub protocol_label : TurnServer → Text
protocol_label server = enabled_protocol_label server.stun_enabled server.turn_enabled
