-- ===== src/Server/LifetimeTests.antt =====
-- Runs of src/server.rs and src/allocation.rs on the lifetimes of allocations, and the theorems
-- applied to them.
use miuturn.Common.{ℕ, ◌+◌, ◌<◌, ◌*◌, ◌≡◌, refl, [], ◌∷◌, none, some, true, arith, be_u32}
use miuturn.Common.Map.{lookup}
use miuturn.Common.Texts.{codes}
use miuturn.Net.{SocketAddr-discrete, v4}
use miuturn.Errors.{ok}
use miuturn.Bandwidth.Limiter.{nanos}
use miuturn.Message.Types.{Message}
use miuturn.Message.AttrType
use miuturn.Message.Codec.{get_attribute, encode}
use miuturn.Allocations.Table.{
  Allocation, AllocationTable, with_port_range_and_bind_addr, refresh_allocation, is_expired,
}
use miuturn.Allocations.Permissions.{find_allocation_by_client}
use miuturn.Allocations.Create.{create_allocation, bind_relay}
use miuturn.Ports.Bitmap.{new, allocate as allocate_port, probe, choose, fallback, lowest_free}
use miuturn.Common.TestBit.{trailing_zeros}
use miuturn.Server.State.{TurnServer, reply}
use miuturn.Server.Start.{with_port_range_limits_bind_address_and_password}
use miuturn.Server.Verify.{accepted, verify_turn_auth}
use miuturn.Server.Handlers.{handle_allocate, get_lifetime, clear_client, attribute}
use miuturn.Server.Lifetimes.{refresh_counts_from_creation, answers_more_than_granted}
use miuturn.Server.HandlerTests.{ext, at, external, client, bare}

-- An allocation of a minute.
abbrev allocation : Allocation
allocation = record {
  id = [];
  relayed_addr = v4 203 0 113 1 49152;
  client_addr = client;
  created_at = 0;
  lifetime = 60 * nanos;
  five_tuple = (client, client);
  relay = none;
  permissions = [];
  bytes_forwarded = 0;
  messages_forwarded = 0;
}

abbrev empty_table : AllocationTable
empty_table = with_port_range_and_bind_addr external external [] 49152 49153 none (some 60) 0

abbrev table : AllocationTable
table = record empty_table { allocations = (v4 203 0 113 1 49152, allocation) ∷ [] }

there : lookup SocketAddr-discrete (v4 203 0 113 1 49152) table.allocations ≡ some allocation
unfolding SocketAddr-discrete
there = ground arith

refresh_counts_from_creation_example :
    (a' : Allocation) × (lookup SocketAddr-discrete
        (v4 203 0 113 1 49152)
        (refresh_allocation table (v4 203 0 113 1 49152) 60).0.allocations
      ≡ some a')
    × (is_expired a' (61 * nanos) ≡ true)
refresh_counts_from_creation_example =
    refresh_counts_from_creation table (v4 203 0 113 1 49152) allocation 60 (61 * nanos) there
      (omega arith)

-- A server without authentication and with a maximum of a minute.
abbrev brief : TurnServer
brief =
    with_port_range_limits_bind_address_and_password external external (codes "r") 49152 49153 none
      (some 60) (codes "password") true 0

abbrev created : Allocation
created = record allocation {
  id = at.id;
  relay = some at.relay;
  created_at = at.now;
  five_tuple = (client, v4 203 0 113 1 49152);
}

passes : verify_turn_auth ext brief bare client at ≡ (brief, accepted [])
unfolding verify_turn_auth get_attribute with_port_range_limits_bind_address_and_password
passes = refl

asks : get_lifetime bare ≡ some 600
unfolding get_lifetime get_attribute
asks = refl

is_limited : brief.allocation_table.max_allocation_duration_secs ≡ some 60
unfolding with_port_range_limits_bind_address_and_password with_port_range_and_bind_addr
is_limited = refl

is_created :
    (create_allocation ext.print_addr
      (clear_client ext brief client).allocation_table
      at.world
      client
      (some 600)
      at.id
      at.relay
      at.now).1
    ≡ ok created
unfolding create_allocation bind_relay allocate_port probe choose new with_port_range_and_bind_addr
    fallback lowest_free trailing_zeros clear_client find_allocation_by_client
    with_port_range_limits_bind_address_and_password
is_created = refl

answers_more_than_granted_example :
    let (after, answer) = handle_allocate ext brief bare client at in
    (response : Message) × (answer ≡ reply (encode response))
    × (get_attribute response AttrType.lifetime ≡ some (attribute AttrType.lifetime (be_u32 600)))
    × (lookup SocketAddr-discrete created.relayed_addr after.allocation_table.allocations
        ≡ some created)
    × (created.lifetime ≡ 60 * nanos)
    × ((later : ℕ) → at.now + 60 * nanos < later → is_expired created later ≡ true)
answers_more_than_granted_example =
    answers_more_than_granted ext brief brief bare client at [] 600 60 created passes asks
      is_limited (omega arith) is_created
