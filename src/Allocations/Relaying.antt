-- ===== src/Allocations/Relaying.antt =====
-- src/allocation.rs: what is relayed towards a peer and from a peer.
use miuturn.Common.{
  ℕ, ◌≡◌, ◌≢◌, ◌<◌, refl, ap, sym, ◌∙◌, List, [], ◌++◌, Option, none, some, Bool, false, arith,
  length, length-append, append-nil, inl, inr, ◌⊎◌, Option-cases,
}
use miuturn.Net.{SocketAddr, v4, IsV4}
use miuturn.Message.Types.{Message, Attribute, cookie}
use miuturn.Message.AttrType
use miuturn.Message.Attribute.{encode}
use miuturn.Message.Codec.{parse, encode_attributes, get_attribute}
use miuturn.Message.Address.{encode_xor_address, decode_xor_address}
use miuturn.Message.Addresses.{decode-encode_xor_address}
use miuturn.Message.RoundTrip.{length-encode_attribute, IsMessage, stamped, parse-encode}
use miuturn.Channels.Table.{ChannelTable, ChannelBinding, get_by_channel, get_by_peer_for_relayed}
use miuturn.Channels.Laws.{IsValid, get_by_peer_for_relayed-some, get_by_peer_for_relayed-none}
use miuturn.Allocations.Table.{Allocation, ServerStats}
use miuturn.Allocations.Ownership.{present}
use miuturn.Allocations.Relay.{
  data_indication, build_data_indication, from_peer, channel_data, normalize_peer_addr_for_client,
}

abbrev pub has_relay : Option Allocation → Bool
has_relay none = false
has_relay (some a) = present a.relay

module _ (a b c d p : ℕ) (payload id : List ℕ) (v : IsV4 a b c d p) (n : length id ≡ 12)
    (h : length payload < 65508) where
  m : Message
  m = data_indication (v4 a b c d p) payload id

  m-IsMessage : IsMessage m
  unfolding m encode_attributes encode_xor_address
  m-IsMessage =
      let first : Attribute = record {
        attr_type = AttrType.peer_address;
        value = encode_xor_address (v4 a b c d p) cookie;
      } in
      let second : Attribute = record { attr_type = AttrType.data_attribute; value = payload } in
      let one = length-encode_attribute first (omega arith, omega arith) in
      let two = length-encode_attribute second (omega arith, omega arith) in
      record {
        id_length = n;
        sound = ((omega arith, omega arith), ((omega arith, omega arith), tt));
        fits = omega (
          arith,
          one,
          two,
          length-append (encode first) (encode second ++ []),
          length-append (encode second) [],
        );
      }

-- The peer and the payload that a client reads in a Data Indication.
abbrev pub peer_of : Message → Option SocketAddr
peer_of r = elim (get_attribute r AttrType.peer_address) [
  | none ↦ none
  | some x ↦ decode_xor_address x.value r.header.magic_cookie
]

abbrev pub payload_of : Message → Option (List ℕ)
payload_of r = elim (get_attribute r AttrType.data_attribute) [
  | none ↦ none
  | some x ↦ some x.value
]

-- A Data Indication about an IPv4 peer, with a payload that a UDP datagram can have and a
-- transaction id of twelve bytes, is parsed, and the client reads the peer's address and the
-- payload in it.
pub parse-build_data_indication :
    (a b c d p : ℕ) (payload id : List ℕ)
    → IsV4 a b c d p
    → length id ≡ 12
    → length payload < 65508
    → (r : Message) × (parse (build_data_indication (v4 a b c d p) payload id) ≡ some r)
      × (peer_of r ≡ some (v4 a b c d p))
      × (payload_of r ≡ some payload)
unfolding build_data_indication get_attribute m
parse-build_data_indication a b c d p payload id v n h =
    let r = m a b c d p payload id v n h in
    (
      stamped r,
      ap parse (sym (append-nil _)) ∙ parse-encode r [] (m-IsMessage a b c d p payload id v n h),
      decode-encode_xor_address a b c d p cookie v,
      refl,
    )

-- For a datagram from a peer, whose address is first rewritten if it is the relay's own, the client
-- gets a ChannelData message on a channel that is bound to the peer for this allocation, and a Data
-- Indication if no channel is.
pub from_peer_lem :
    (stats : ServerStats) (channels : ChannelTable)
    (relay_bind_addr relayed_addr peer_addr : SocketAddr) (payload id : List ℕ)
    → IsValid channels
    → let effective = normalize_peer_addr_for_client peer_addr relay_bind_addr relayed_addr in
      let bytes = (from_peer stats channels relay_bind_addr relayed_addr peer_addr payload id).1 in
      ((c : ℕ) × (b : ChannelBinding) × (get_by_channel channels relayed_addr c ≡ some b)
        × (b.peer_addr ≡ effective)
        × (bytes ≡ channel_data c payload))
      ⊎ (((c : ℕ) (b : ChannelBinding)
            → get_by_channel channels relayed_addr c ≡ some b
            → b.peer_addr ≢ effective)
          × (bytes ≡ build_data_indication effective payload id))
unfolding from_peer
from_peer_lem stats channels relay_bind_addr relayed_addr peer_addr payload id v =
    let effective : SocketAddr =
      normalize_peer_addr_for_client peer_addr relay_bind_addr relayed_addr in
    elim (Option-cases (get_by_peer_for_relayed channels relayed_addr effective)) [
      | inl q ↦ inr (
        λ c b. get_by_peer_for_relayed-none channels relayed_addr effective c b q,
        rw (q, from_peer) refl,
      )
      | inr (c, q) ↦
          let (b, there, same) =
            get_by_peer_for_relayed-some channels relayed_addr effective c v q in
          inl (c, b, there, same, rw (q, from_peer) refl)
    ]
