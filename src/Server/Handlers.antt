-- ===== src/Server/Handlers.antt =====
-- src/server.rs: the handlers of the requests and of Send indications.
use miuturn.Common.{
  ℕ, ◌+◌, ◌*◌, ◌^◌, List, [], ◌∷◌, Option, none, some, true, false, ltb, if◌then◌else◌, length,
  get_or, be_u32, Text,
}
use miuturn.Common.Texts.{codes}
use miuturn.Net.{SocketAddr}
use miuturn.Errors.{
  Error, ok, err, display, allocation_quota_reached, relay_port_exhausted, relay_bind_failed,
}
use miuturn.Message.Types.{
  Message, Attribute, ErrorCode, success, cookie, allocation_mismatch, bad_request, server_error,
  insufficient_capacity,
}
use miuturn.Message.Types
use miuturn.Message.AttrType
use miuturn.Message.Address.{encode_xor_address, create_binding_response_fast}
use miuturn.Message.Codec.{encode, get_attribute}
use miuturn.Channels.Table.{ChannelTable}
use miuturn.Allocations.Table.{AllocationTable, remove_allocation}
use miuturn.Allocations.Create.{create_allocation}
use miuturn.Allocations.Permissions.{find_allocation_by_client}
use miuturn.Server.State.{
  Externals, Moment, TurnServer, Reply, panicked, reply, get_password_for_user,
  create_error_response_bytes_with_reason,
}
use miuturn.Server.Integrity.{compute_message_integrity_key, add_response_message_integrity}
use miuturn.Server.Verify.{with_auth}

-- `get_u32` of the first attribute LIFETIME, which panics on a value of fewer than four bytes.
unfoldable pub get_lifetime : Message → Option ℕ
get_lifetime msg = elim (get_attribute msg AttrType.lifetime) [
  | none ↦ some 600
  | some a ↦
      if ltb (length a.value) 4
      then none
      else some (
          get_or a.value 0 0 * 2 ^ 24
          + get_or a.value 1 0 * 2 ^ 16
          + get_or a.value 2 0 * 2 ^ 8
          + get_or a.value 3 0)
]

abbrev pub attribute : ℕ → List ℕ → Attribute
attribute attr_type value = record { attr_type = attr_type; value = value }

unfoldable pub handle_binding : Message → SocketAddr → Reply
handle_binding msg client_addr =
    reply (create_binding_response_fast (msg.header).transaction_id client_addr)

abbrev pub set_tables : TurnServer → AllocationTable × Option ChannelTable → TurnServer
set_tables server (t, none) = record server { allocation_table = t }
set_tables server (t, some channels) = record server {
  allocation_table = t;
  channel_table = channels;
}

module _ (ext : Externals) where
  -- Success responses are signed where authentication is on and the user still has a password.
  unfoldable pub signed : TurnServer → Text → Moment → Message → Message
  signed server username at response = elim server.auth_disabled [
    | true ↦ response
    | false ↦ elim (get_password_for_user server username at.unix_secs) [
      | none ↦ response
      | some password ↦
          add_response_message_integrity ext response
            (compute_message_integrity_key ext username server.realm password)
    ]
  ]

  -- The code and the reason of an Allocate request that fails.
  unfoldable pub allocate_failure : Error → ErrorCode × Text
  allocate_failure allocation_quota_reached =
      (Types.allocation_quota_reached, codes "server allocation quota reached")
  allocate_failure relay_port_exhausted =
      (insufficient_capacity, display ext.print_addr relay_port_exhausted)
  allocate_failure (relay_bind_failed addr source) =
      (insufficient_capacity, display ext.print_addr (relay_bind_failed addr source))
  allocate_failure e = (server_error, display ext.print_addr e)

  unfoldable pub allocate_response : TurnServer → Message → SocketAddr → SocketAddr → ℕ → Message
  allocate_response server msg client_addr relayed_addr lifetime = record {
    header = record {
      method = (msg.header).method;
      event_type = success;
      message_length = 0;
      magic_cookie = cookie;
      transaction_id = (msg.header).transaction_id;
    };
    attributes =
        attribute AttrType.xor_relayed_address (encode_xor_address relayed_addr cookie)
        ∷ attribute AttrType.xor_mapped_address (encode_xor_address client_addr cookie)
        ∷ attribute AttrType.lifetime (be_u32 lifetime)
        ∷ attribute AttrType.realm server.realm
        ∷ attribute AttrType.software server.server_name
        ∷ [];
  }

  -- An allocation that the client has is removed first, with its channels.
  unfoldable pub clear_client : TurnServer → SocketAddr → TurnServer
  clear_client server client_addr =
      elim (find_allocation_by_client server.allocation_table client_addr) [
        | none ↦ server
        | some old_relayed ↦
            set_tables server
              (remove_allocation ext.print_addr server.allocation_table old_relayed
                (some server.channel_table)).0
      ]

  unfoldable pub allocate_for :
      TurnServer → Message → SocketAddr → Moment → Text → ℕ → TurnServer × Reply
  unfolding clear_client
  allocate_for server msg client_addr at username lifetime =
      let cleared = clear_client server client_addr in
      let (t, created) =
        create_allocation ext.print_addr cleared.allocation_table at.world client_addr
          (some lifetime) at.id at.relay at.now in
      let server' = record cleared { allocation_table = t } in
      elim created [
        | err e ↦
            let (error_code, reason) = allocate_failure e in
            (
              server',
              reply (create_error_response_bytes_with_reason ext msg error_code reason server'),
            )
        | ok a ↦
            let response = allocate_response server' msg client_addr a.relayed_addr lifetime in
            (server', reply (encode (signed server' username at response)))
      ]

  unfoldable pub handle_allocate : TurnServer → Message → SocketAddr → Moment → TurnServer × Reply
  unfolding get_lifetime
  handle_allocate server msg client_addr at =
      with_auth ext server msg client_addr at (λ server' username. elim (get_lifetime msg) [
        | none ↦ (server', panicked)
        | some lifetime ↦ allocate_for server' msg client_addr at username lifetime
      ])
