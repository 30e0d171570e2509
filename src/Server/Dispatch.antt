-- ===== src/Server/Dispatch.antt =====
-- src/server.rs: the ways of a datagram and of a message to their handlers, and the tasks that clean
-- up.
use miuturn.Common.{
  ℕ, zero, suc, ◌+◌, ◌-◌, ◌/◌, List, [], ◌∷◌, Option, none, some, Bool, true, false, not, ◌||◌,
  ◌&&◌, ltb, leb, ◌==◌, if◌then◌else◌, length, slice, get_or, min, retain, from_be_u16,
}
use miuturn.Net.{SocketAddr}
use miuturn.Bandwidth.Limiter.{nanos}
use miuturn.Message.Types.{
  Method, binding, allocate, refresh, send, data_message, create_permission, channel_bind, request,
  Message, Attribute, cookie,
}
use miuturn.Message.Attribute.{padding}
use miuturn.Message.Codec.{parse}
use miuturn.Channels.Table.{ChannelTable, get_by_channel}
use miuturn.Channels.Table
use miuturn.Allocations.Table.{AllocationTable, Allocation}
use miuturn.Allocations.Table as Allocs
use miuturn.Allocations.Permissions.{get_allocation_by_client}
use miuturn.Server.Frame.{first_word, payload_len, is_channel_number}
use miuturn.Server.State.{Externals, Moment, TurnServer, Reply, no_reply, to_peer}
use miuturn.Server.Handlers.{handle_binding, handle_allocate, set_tables}
use miuturn.Server.Requests.{
  handle_refresh, handle_create_permission, handle_channel_bind, handle_send,
}

abbrev pub is_binding : Method → Bool
is_binding binding = true
is_binding _ = false

unfoldable pub is_channel_data_frame : List ℕ → Bool
is_channel_data_frame bytes =
    if ltb (length bytes) 4 then false else is_channel_number (first_word bytes)

-- A binding of the client's allocation says where the payload goes.
unfoldable pub handle_channel_data : List ℕ → SocketAddr → TurnServer → Reply
handle_channel_data bytes peer_addr server =
    let payload = slice bytes 4 (4 + min (payload_len bytes) (length bytes - 4)) in
    elim (ltb (length bytes) 4) [
      | true ↦ no_reply
      | false ↦ elim (get_allocation_by_client server.allocation_table peer_addr) [
        | none ↦ no_reply
        | some a ↦ elim (get_by_channel server.channel_table a.relayed_addr (first_word bytes)) [
          | none ↦ no_reply
          | some channel ↦ elim a.relay [
            | none ↦ no_reply
            | some socket ↦ to_peer channel.peer_addr payload
          ]
        ]
      ]
    ]

-- The methods of the second reading of a header, which has no CreatePermission.
unfoldable pub loose_method : ℕ → Option Method
loose_method v =
    if v == 0x0001
    then some binding
    else if v == 0x0003
    then some allocate
    else if v == 0x0004
    then some refresh
    else if v == 0x0006
    then some send
    else if v == 0x0007
    then some data_message
    else if v == 0x0009
    then some channel_bind
    else none

-- The loop over the attributes of the second reading. Each takes four bytes at least, so the number
-- of bytes is fuel enough.
unfoldable pub loose_attributes : ℕ → List ℕ → ℕ → ℕ → List Attribute
loose_attributes zero bytes offset end_offset = []
loose_attributes (suc fuel) bytes offset end_offset =
    elim (ltb offset end_offset && leb (offset + 4) (length bytes)) [
      | false ↦ []
      | true ↦
          let attr_len : ℕ =
            from_be_u16 (get_or bytes (offset + 2) 0) (get_or bytes (offset + 3) 0) in
          elim (leb (offset + 4 + attr_len) (length bytes)) [
            | false ↦ []
            | true ↦
                record {
                  attr_type = from_be_u16 (get_or bytes offset 0) (get_or bytes (offset + 1) 0);
                  value = slice bytes (offset + 4) (offset + 4 + attr_len);
                }
                ∷ loose_attributes fuel bytes (offset + 4 + attr_len + padding (attr_len + 4))
                    end_offset
          ]
    ]

abbrev pub loose_header : List ℕ → Bool
loose_header bytes =
    leb 20 (length bytes)
    && (ltb 0 (payload_len bytes)
        && (ltb (payload_len bytes) 1500
            && (get_or bytes 4 0 == 0x21
                && (get_or bytes 5 0 == 0x12
                    && (get_or bytes 6 0 == 0xa4 && get_or bytes 7 0 == 0x42)))))

unfoldable pub loose_message : List ℕ → Option Message
unfolding loose_method loose_attributes
loose_message bytes = elim (loose_header bytes) [
  | false ↦ none
  | true ↦ elim (loose_method (first_word bytes)) [
    | none ↦ none
    | some method ↦ some (record {
      header = record {
        method = method;
        event_type = request;
        message_length = payload_len bytes;
        magic_cookie = cookie;
        transaction_id = slice bytes 8 20;
      };
      attributes = loose_attributes (length bytes) bytes 20 (20 + payload_len bytes);
    })
  ]
]

module _ (ext : Externals) where
  unfoldable pub process_message : TurnServer → Message → SocketAddr → Moment → TurnServer × Reply
  process_message server msg client_addr at =
      let stun = is_binding (msg.header).method in
      elim (stun && not server.stun_enabled || not stun && not server.turn_enabled) [
        | true ↦ (server, no_reply)
        | false ↦ elim (msg.header).method [
          | binding ↦ (server, handle_binding msg client_addr)
          | allocate ↦ handle_allocate ext server msg client_addr at
          | refresh ↦ handle_refresh ext server msg client_addr at
          | create_permission ↦ handle_create_permission ext server msg client_addr at
          | channel_bind ↦ handle_channel_bind ext server msg client_addr at
          | send ↦ handle_send server msg client_addr at
          | data_message ↦ (server, no_reply)
        ]
      ]

  abbrev pub process_parsed : TurnServer → Option Message → SocketAddr → Moment → TurnServer × Reply
  process_parsed server none client_addr at = (server, no_reply)
  process_parsed server (some msg) client_addr at = process_message server msg client_addr at

  unfoldable pub handle_tcp_message : TurnServer → List ℕ → SocketAddr → Moment → TurnServer × Reply
  unfolding is_channel_data_frame
  handle_tcp_message server bytes peer_addr at = elim (is_channel_data_frame bytes) [
    | true ↦ (server, handle_channel_data bytes peer_addr server)
    | false ↦ process_parsed server (parse bytes) peer_addr at
  ]

  -- A datagram that is no message is read a second time, by a looser format.
  unfoldable pub handle_udp_message : TurnServer → List ℕ → SocketAddr → Moment → TurnServer × Reply
  unfolding is_channel_data_frame loose_message
  handle_udp_message server bytes peer_addr at = elim (ltb (length bytes) 4) [
    | true ↦ (server, no_reply)
    | false ↦ elim (is_channel_data_frame bytes) [
      | true ↦ (server, handle_channel_data bytes peer_addr server)
      | false ↦ elim (parse bytes) [
        | some msg ↦ process_message server msg peer_addr at
        | none ↦ process_parsed server (loose_message bytes) peer_addr at
      ]
    ]
  ]

  -- One round of the task that cleans up allocations.
  unfoldable pub clean_allocations : TurnServer → ℕ → TurnServer
  clean_allocations server now =
      set_tables server
        (Allocs.cleanup_expired ext.print_addr server.allocation_table (some server.channel_table)
          now).0

-- One round of the tasks that clean up channels, and nonces of 600 whole seconds and more.
unfoldable pub clean_channels : TurnServer → ℕ → TurnServer
clean_channels server now = record server {
  channel_table = (Table.cleanup_expired server.channel_table now).0;
}

unfoldable pub clean_nonces : TurnServer → ℕ → TurnServer
clean_nonces server now = record server {
  nonce_map = retain (λ e. ltb ((now - e.1) / nanos) 600) server.nonce_map;
}
