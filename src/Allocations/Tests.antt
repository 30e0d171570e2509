-- ===== src/Allocations/Tests.antt =====
-- Runs of the table of allocations of src/allocation.rs, and the theorems applied to them.
use miuturn.Common.{
  ℕ, zero, suc, ◌≡◌, ◌≢◌, ◌⊎◌, refl, List, [], ◌∷◌, none, some, ◌||◌, ◌&&◌, arith, Text,
}
use miuturn.Net.{SocketAddr, v4, v6, ip}
use miuturn.Errors.{ok, err, relay_bind_failed}
use miuturn.Channels.Table
use miuturn.Channels.Table.{ChannelTable, ChannelBinding, same, get_by_channel}
use miuturn.Channels.Histories
use miuturn.Ports.Bitmap.{new, allocate, release, probe, choose, fallback, lowest_free}
use miuturn.Common.TestBit.{trailing_zeros}
use miuturn.Ports.Calls.{new-IsValid}
use miuturn.Allocations.Table.{AllocationTable, Ipv4Addr, with_port_range_and_bind_addr}
use miuturn.Allocations.Create.{Attempt, bind_relay, create_allocation}
use miuturn.Allocations.Binding.{Promises, bind_relay-Promises}
use miuturn.Allocations.Histories.{Call, create, remove, refresh, cleanup}
use miuturn.Allocations.Permissions.{
  add_permissions, check_permission, check_permission-add_permissions, names,
}
use miuturn.Allocations.Relay.{
  from_peer, channel_data, build_data_indication, normalize_peer_addr_for_client,
}
use miuturn.Allocations.Relaying.{from_peer_lem}

-- Binding fails once, for the reason "x", and then succeeds.
abbrev world : ℕ → Attempt
world zero = record { draw_1 = 0; draw_2 = 0; failure = some (120 ∷ []) }
world (suc n) = record { draw_1 = 0; draw_2 = 1; failure = none }

abbrev external : Ipv4Addr
external = (203, 0, 113, 1)

abbrev inner : Ipv4Addr
inner = (10, 0, 0, 1)

abbrev client : SocketAddr
client = v4 198 51 100 7 40000

abbrev peer : SocketAddr
peer = v4 192 0 2 9 5000

abbrev print : SocketAddr → Text
print (v4 a b c d p) = a ∷ b ∷ c ∷ d ∷ p ∷ []
print (v6 octets p flowinfo scope_id) = p ∷ octets

abbrev empty_table : AllocationTable
empty_table = with_port_range_and_bind_addr external inner [] 49152 49153 (some 5) (some 300) 0

abbrev one_client : AllocationTable
one_client = (create_allocation print empty_table world client none (1 ∷ []) 3 0).0

second_port : (bind_relay inner world (new 49152 49153) 100 0 none).1 ≡ ok 49153
unfolding bind_relay allocate release probe choose fallback lowest_free trailing_zeros new
second_port = refl

one_attempt :
    (bind_relay inner world (new 49152 49153) 1 0 none).1
    ≡ err (relay_bind_failed (v4 10 0 0 1 49152) (120 ∷ []))
unfolding bind_relay allocate release probe choose fallback lowest_free trailing_zeros new
one_attempt = refl

bind_relay-Promises_example :
    Promises (new 49152 49153) (bind_relay inner world (new 49152 49153) 100 0 none)
bind_relay-Promises_example =
    bind_relay-Promises inner world (new 49152 49153) 100 0 none
      (new-IsValid 49152 49153 (omega arith) (omega arith) (omega arith)).bitmap

abbrev calls : List Call
calls =
    create world client none (1 ∷ []) 3 0
    ∷ refresh (v4 203 0 113 1 49153) 60
    ∷ create world (v4 198 51 100 8 40001) (some 30) (2 ∷ []) 4 5
    ∷ cleanup 40000000000
    ∷ remove (v4 203 0 113 1 49153)
    ∷ []

check_permission-add_permissions_example :
    check_permission (add_permissions one_client client (peer ∷ [])).0 client (v4 192 0 2 9 6000)
    ≡ (check_permission one_client client (v4 192 0 2 9 6000)
        || (same client client
            && ((add_permissions one_client client (peer ∷ [])).1
                && names (peer ∷ []) (ip (v4 192 0 2 9 6000)))))
check_permission-add_permissions_example =
    check_permission-add_permissions one_client client (peer ∷ []) client (v4 192 0 2 9 6000)

abbrev id : List ℕ
id = 1 ∷ 2 ∷ 3 ∷ 4 ∷ 5 ∷ 6 ∷ 7 ∷ 8 ∷ 9 ∷ 10 ∷ 11 ∷ 12 ∷ []

abbrev relayed : SocketAddr
relayed = v4 203 0 113 1 49153

abbrev relay_bind : SocketAddr
relay_bind = v4 10 0 0 1 49153

abbrev channels : ChannelTable
channels = Histories.run Table.new (Histories.binds 0x4000 peer relayed 0 ∷ [])

from_peer_lem_example :
    let effective = normalize_peer_addr_for_client peer relay_bind relayed in
    let bytes = (from_peer one_client.stats channels relay_bind relayed peer (7 ∷ []) id).1 in
    ((c : ℕ) × (b : ChannelBinding) × (get_by_channel channels relayed c ≡ some b)
      × (b.peer_addr ≡ effective)
      × (bytes ≡ channel_data c (7 ∷ [])))
    ⊎ (((c : ℕ) (b : ChannelBinding)
          → get_by_channel channels relayed c ≡ some b
          → b.peer_addr ≢ effective)
        × (bytes ≡ build_data_indication effective (7 ∷ []) id))
from_peer_lem_example =
    from_peer_lem one_client.stats channels relay_bind relayed peer (7 ∷ []) id (
      Histories.run-IsValid Table.new (Histories.binds 0x4000 peer relayed 0 ∷ [])
        Histories.new-IsValid)
