-- ===== src/Server/Requests.antt =====
-- src/server.rs: the handlers of the other requests, and of Send indications.
use miuturn.Common.{
  ℕ, List, [], ◌∷◌, Option, none, some, true, false, ltb, ◌==◌, if◌then◌else◌, length, get_or,
  be_u32, from_be_u16, Text,
}
use miuturn.Common.Texts.{codes}
use miuturn.Net.{SocketAddr, v4}
use miuturn.Errors.{ok, err}
use miuturn.Message.Types.{Message, Attribute, cookie, allocation_mismatch, bad_request}
use miuturn.Message.AttrType
use miuturn.Message.Address.{decode_xor_address}
use miuturn.Message.Codec.{encode, add_attribute, get_attribute, create_success_response}
use miuturn.Channels.Table.{bind}
use miuturn.Allocations.Table.{remove_allocation, refresh_allocation}
use miuturn.Allocations.Permissions.{find_allocation_by_client, add_permissions}
use miuturn.Allocations.Relay.{send_to_peer}
use miuturn.Server.State.{
  Externals, Moment, TurnServer, Reply, no_reply, panicked, reply, to_peer,
  create_error_response_bytes, create_error_response_bytes_with_reason,
}
use miuturn.Server.Handlers.{get_lifetime, attribute, set_tables, signed}
use miuturn.Server.Verify.{with_auth}

-- The addresses of the attributes PEER-ADDRESS that can be decoded.
unfoldable pub peers_of : List Attribute → List SocketAddr
peers_of [] = []
peers_of (a ∷ rest) =
    let peers = peers_of rest in
    if a.attr_type == AttrType.peer_address
    then elim (decode_xor_address a.value cookie) [ none ↦ peers | some peer ↦ peer ∷ peers ]
    else peers

abbrev pub decoded_or_zero : Option SocketAddr → SocketAddr
decoded_or_zero none = v4 0 0 0 0 0
decoded_or_zero (some addr) = addr

module _ (ext : Externals) where
  -- A lifetime of 0 removes the allocation.
  unfoldable pub refresh_for :
      TurnServer → Message → SocketAddr → Moment → Text → ℕ → TurnServer × Reply
  refresh_for server msg client_addr at username lifetime =
      let mismatch = reply (create_error_response_bytes ext msg allocation_mismatch server) in
      let response =
        add_attribute (create_success_response msg.header)
          (attribute AttrType.lifetime (be_u32 lifetime)) in
      let done = reply (encode (signed ext server username at response)) in
      elim (find_allocation_by_client server.allocation_table client_addr) [
        | none ↦ (server, mismatch)
        | some relayed ↦ elim (lifetime == 0) [
          | true ↦ (
            set_tables server
                (remove_allocation ext.print_addr server.allocation_table relayed
                  (some server.channel_table)).0,
            done,
          )
          | false ↦
              let (t, answer) = refresh_allocation server.allocation_table relayed lifetime in
              (
                record server { allocation_table = t },
                elim answer [ err e ↦ mismatch | ok u ↦ done ],
              )
        ]
      ]

  unfoldable pub handle_refresh : TurnServer → Message → SocketAddr → Moment → TurnServer × Reply
  unfolding get_lifetime
  handle_refresh server msg client_addr at =
      with_auth ext server msg client_addr at (λ server' username. elim (get_lifetime msg) [
        | none ↦ (server', panicked)
        | some lifetime ↦ refresh_for server' msg client_addr at username lifetime
      ])

  unfoldable pub permit_for : TurnServer → Message → SocketAddr → Moment → Text → TurnServer × Reply
  unfolding peers_of
  permit_for server msg client_addr at username =
      let mismatch = reply (create_error_response_bytes ext msg allocation_mismatch server) in
      elim (find_allocation_by_client server.allocation_table client_addr) [
        | none ↦ (server, mismatch)
        | some relayed_addr ↦ elim (peers_of msg.attributes) [
          | [] ↦ (server, reply (create_error_response_bytes ext msg bad_request server))
          | peer ∷ peers ↦
              let (t, added) = add_permissions server.allocation_table client_addr (peer ∷ peers) in
              (
                record server { allocation_table = t },
                elim added [
                  | false ↦ mismatch
                  | true ↦
                      reply (
                        encode (signed ext server username at (create_success_response msg.header)))
                ],
              )
        ]
      ]

  unfoldable pub handle_create_permission :
      TurnServer → Message → SocketAddr → Moment → TurnServer × Reply
  handle_create_permission server msg client_addr at =
      with_auth ext server msg client_addr at
        (λ server' username. permit_for server' msg client_addr at username)

  -- The first PEER-ADDRESS, read as 0.0.0.0:0 if it cannot be decoded, and the first two bytes of
  -- the first CHANNEL-NUMBER, which panics if there are fewer.
  unfoldable pub bind_for : TurnServer → Message → SocketAddr → Moment → Text → TurnServer × Reply
  bind_for server msg client_addr at username =
      elim (find_allocation_by_client server.allocation_table client_addr) [
        | none ↦ (server, no_reply)
        | some relayed_addr ↦ elim (get_attribute msg AttrType.peer_address) [
          | none ↦ (server, no_reply)
          | some peer_attr ↦ elim (get_attribute msg AttrType.channel_number) [
            | none ↦ (server, no_reply)
            | some channel_attr ↦ elim (ltb (length channel_attr.value) 2) [
              | true ↦ (server, panicked)
              | false ↦
                  let channel_num : ℕ =
                    from_be_u16 (get_or channel_attr.value 0 0) (get_or channel_attr.value 1 0) in
                  let peer_addr = decoded_or_zero (decode_xor_address peer_attr.value cookie) in
                  let (channels, answer) =
                    bind server.channel_table channel_num peer_addr relayed_addr at.now in
                  (
                    record server { channel_table = channels },
                    elim answer [
                      | ok u ↦ reply (
                          encode
                            (signed ext server username at (create_success_response msg.header)))
                      | err e ↦ reply (
                          create_error_response_bytes_with_reason ext msg bad_request
                            (codes "Channel number already bound for this allocation") server)
                    ],
                  )
            ]
          ]
        ]
      ]

  unfoldable pub handle_channel_bind :
      TurnServer → Message → SocketAddr → Moment → TurnServer × Reply
  handle_channel_bind server msg client_addr at =
      with_auth ext server msg client_addr at
        (λ server' username. bind_for server' msg client_addr at username)

-- No authentication: the allocation and its permissions decide.
unfoldable pub handle_send : TurnServer → Message → SocketAddr → Moment → TurnServer × Reply
handle_send server msg client_addr at =
    elim (find_allocation_by_client server.allocation_table client_addr) [
      | none ↦ (server, no_reply)
      | some relayed_addr ↦ elim (get_attribute msg AttrType.peer_address) [
        | none ↦ (server, no_reply)
        | some peer_attr ↦ elim (decode_xor_address peer_attr.value cookie) [
          | none ↦ (server, no_reply)
          | some peer_addr ↦ elim (get_attribute msg AttrType.data_attribute) [
            | none ↦ (server, no_reply)
            | some data_attr ↦
                let (t, went) =
                  send_to_peer server.allocation_table client_addr peer_addr data_attr.value
                    at.sent in
                (
                  record server { allocation_table = t },
                  elim went [ none ↦ no_reply | some u ↦ to_peer peer_addr data_attr.value ],
                )
          ]
        ]
      ]
    ]
