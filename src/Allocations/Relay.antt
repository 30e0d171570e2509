-- ===== src/Allocations/Relay.antt =====
-- src/allocation.rs: data towards a peer (`send_to_peer`, `relay_to_peer`, `peer_to_relay`) and from
-- a peer (the receiving branch of the task of an allocation). Whether the operating system sends a
-- datagram is an argument.
use miuturn.Common.{
  ℕ, ◌%◌, ◌^◌, List, [], ◌∷◌, ◌++◌, Option, none, some, Bool, true, false, ◌&&◌, not, find, length,
  be_u16, if◌then◌else◌,
}
use miuturn.Common.Map.{lookup, insert}
use miuturn.Net.{SocketAddr, SocketAddr-discrete, ip, port, socket_addr}
use miuturn.Errors.{Result, ok, err, no_allocation, not_found}
use miuturn.Bandwidth.Trackers.{fetch_add}
use miuturn.Channels.Table.{ChannelTable, same, get_by_peer_for_relayed}
use miuturn.Message.Types.{Message, data_message, indication, cookie}
use miuturn.Message.AttrType
use miuturn.Message.Codec
use miuturn.Message.Address.{encode_xor_address}
use miuturn.Allocations.Table.{Allocation, AllocationTable, ServerStats}
use miuturn.Allocations.Permissions.{of_client, contains, same_ip}

-- One more message of `n` bytes in the statistics.
abbrev pub counted_stats : ServerStats → ℕ → ServerStats
counted_stats stats n = record stats {
  total_bytes_relayed = fetch_add stats.total_bytes_relayed n;
  total_messages = fetch_add stats.total_messages 1;
}

abbrev pub counted : AllocationTable → ℕ → AllocationTable
counted t n = record t { stats = counted_stats t.stats n }

abbrev pub forwarded : Allocation → ℕ → Allocation
forwarded a n = record a {
  bytes_forwarded = fetch_add a.bytes_forwarded n;
  messages_forwarded = fetch_add a.messages_forwarded 1;
}

unfoldable pub send_to_peer :
    AllocationTable → SocketAddr → SocketAddr → List ℕ → Bool → AllocationTable × Option (Unit {0})
unfolding of_client
send_to_peer t client_addr peer payload sent = elim (of_client client_addr t.allocations) [
  | none ↦ (t, none)
  | some (addr, a) ↦ elim (contains a.permissions (ip peer)) [
    | false ↦ (t, none)
    | true ↦ elim a.relay [
      | none ↦ (t, none)
      | some socket ↦ elim sent [
        | false ↦ (t, none)
        | true ↦
            let t' = record t {
              allocations =
                  insert SocketAddr-discrete addr (forwarded a (length payload)) t.allocations;
            } in
            (counted t' (length payload), some tt)
      ]
    ]
  ]
]

unfoldable pub relay_to_peer :
    AllocationTable → SocketAddr → List ℕ → AllocationTable × Result SocketAddr
relay_to_peer t relayed_addr payload =
    elim (lookup SocketAddr-discrete relayed_addr t.allocations) [
      | none ↦ (t, err no_allocation)
      | some a ↦ (counted t (length payload), ok a.client_addr)
    ]

unfoldable pub peer_to_relay : AllocationTable → SocketAddr → AllocationTable × Result SocketAddr
peer_to_relay t peer_addr = elim (find (λ e. same e.1.five_tuple.1 peer_addr) t.allocations) [
  | none ↦ (t, err not_found)
  | some (addr, a) ↦ (counted t 1, ok a.relayed_addr)
]

unfoldable pub normalize_peer_addr_for_client : SocketAddr → SocketAddr → SocketAddr → SocketAddr
normalize_peer_addr_for_client peer_addr relay_bind_addr relayed_addr =
    if same_ip (ip peer_addr) (ip relay_bind_addr)
      && not (same_ip (ip relay_bind_addr) (ip relayed_addr))
    then socket_addr (ip relayed_addr) (port peer_addr)
    else peer_addr

abbrev pub data_indication : SocketAddr → List ℕ → List ℕ → Message
data_indication peer_addr payload transaction_id = record {
  header = record {
    method = data_message;
    event_type = indication;
    message_length = 0;
    magic_cookie = cookie;
    transaction_id = transaction_id;
  };
  attributes =
      record { attr_type = AttrType.peer_address; value = encode_xor_address peer_addr cookie }
      ∷ record { attr_type = AttrType.data_attribute; value = payload }
      ∷ [];
}

-- The transaction id is random.
unfoldable pub build_data_indication : SocketAddr → List ℕ → List ℕ → List ℕ
build_data_indication peer_addr payload transaction_id =
    Codec.encode (data_indication peer_addr payload transaction_id)

abbrev pub channel_data : ℕ → List ℕ → List ℕ
channel_data channel payload = be_u16 channel ++ (be_u16 (length payload % 2 ^ 16) ++ payload)

-- What the task counts and sends to the client for a datagram that a peer sent to the relay.
unfoldable pub from_peer :
    ServerStats
    → ChannelTable
    → SocketAddr
    → SocketAddr
    → SocketAddr
    → List ℕ
    → List ℕ
    → ServerStats × List ℕ
unfolding normalize_peer_addr_for_client build_data_indication
from_peer stats channels relay_bind_addr relayed_addr peer_addr payload transaction_id =
    let effective = normalize_peer_addr_for_client peer_addr relay_bind_addr relayed_addr in
    let bytes : List ℕ = elim (get_by_peer_for_relayed channels relayed_addr effective) [
      | none ↦ build_data_indication effective payload transaction_id
      | some channel ↦ channel_data channel payload
    ] in
    (counted_stats stats (length payload), bytes)
