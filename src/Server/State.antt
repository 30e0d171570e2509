-- ===== src/Server/State.antt =====
-- src/server.rs, `TurnServer`: its state, what it takes from outside, and the error responses. The
-- fields that only the dump of the statistics and the start-up read are left out.
use miuturn.Common.{ℕ, List, Option, none, some, Bool, true, false, Text}
use miuturn.Common.Map.{insert}
use miuturn.Common.Texts.{Text-discrete, is_empty}
use miuturn.Net.{IpAddr, SocketAddr}
use miuturn.Message.Types.{Message, ErrorCode, unauthorized}
use miuturn.Message.AttrType
use miuturn.Message.Codec.{
  encode, add_attribute, create_error_response, create_error_response_with_reason,
}
use miuturn.Auth.Manager.{AuthManager, get_user_password}
use miuturn.Channels.Table.{ChannelTable}
use miuturn.Allocations.Table.{AllocationTable}
use miuturn.Allocations.Create.{Attempt}

-- Functions of other libraries: the digest and the code of `md5` and `hmac`, the decoding of bytes
-- as text with replacements, and how addresses and error codes are printed.
pub record Externals : Type 0 where
  pub md5 : List ℕ → List ℕ
  pub hmac_sha1 : List ℕ → List ℕ → List ℕ
  pub from_utf8_lossy : List ℕ → Text
  pub print_addr : SocketAddr → Text
  pub print_ip : IpAddr → Text
  pub debug_name : ErrorCode → Text

-- What one datagram meets: the instant in nanoseconds and the seconds since 1970, the nonce that is
-- generated if one is, the outcomes of binding sockets with the identifier and the socket of a new
-- allocation, and whether the operating system sends a datagram.
pub record Moment : Type 0 where
  pub now : ℕ
  pub unix_secs : ℕ
  pub nonce : Text
  pub world : ℕ → Attempt
  pub id : List ℕ
  pub relay : ℕ
  pub sent : Bool

-- The nonces with the instants of their creation.
pub record TurnServer : Type 0 where
  pub allocation_table : AllocationTable
  pub channel_table : ChannelTable
  pub realm : Text
  pub nonce_map : List (Text × ℕ)
  pub password : Text
  pub auth_disabled : Bool
  pub auth_manager : Option AuthManager
  pub server_name : Text
  pub stun_enabled : Bool
  pub turn_enabled : Bool

-- What a message leads to: nothing, bytes for the client, a datagram from the relay of the client's
-- allocation to a peer, or the panic of the task that handles the message.
pub data Reply : Type 0 where
  no_reply panicked : Reply
  reply : List ℕ → Reply
  to_peer : SocketAddr → List ℕ → Reply

abbrev pub managed_password : Option AuthManager → Text → ℕ → Option Text
managed_password none username unix_secs = none
managed_password (some manager) username unix_secs = get_user_password manager username unix_secs

-- The password of the authentication manager, else the global one if it is not empty.
unfoldable pub get_password_for_user : TurnServer → Text → ℕ → Option Text
get_password_for_user server username unix_secs =
    elim (managed_password server.auth_manager username unix_secs) [
      | some password ↦ some password
      | none ↦ elim (is_empty server.password) [ true ↦ none | false ↦ some server.password ]
    ]

module _ (ext : Externals) where
  abbrev pub with_software : TurnServer → Message → Message
  with_software server response =
      add_attribute response (record { attr_type = AttrType.software; value = server.server_name })

  unfoldable pub create_error_response_bytes : Message → ErrorCode → TurnServer → List ℕ
  create_error_response_bytes msg error_code server =
      encode (with_software server (create_error_response ext.debug_name msg.header error_code))

  unfoldable pub create_error_response_bytes_with_reason :
      Message → ErrorCode → Text → TurnServer → List ℕ
  create_error_response_bytes_with_reason msg error_code reason server = encode (
      with_software server
        (create_error_response_with_reason ext.debug_name msg.header error_code (some reason)))

  -- The message of the 401 response, without its encoding.
  unfoldable pub challenge : Message → TurnServer → Option Text → Text → Message
  challenge msg server reason nonce =
      let response =
        create_error_response_with_reason ext.debug_name msg.header unauthorized reason in
      let with_realm =
        add_attribute response (record { attr_type = AttrType.realm; value = server.realm }) in
      let with_nonce =
        add_attribute with_realm (record { attr_type = AttrType.nonce; value = nonce }) in
      with_software server with_nonce

  -- The nonce is remembered before the response is made.
  unfoldable pub create_401_response :
      Message → TurnServer → Moment → Option Text → TurnServer × List ℕ
  unfolding challenge
  create_401_response msg server at reason = (
    record server { nonce_map = insert Text-discrete at.nonce at.now server.nonce_map },
    encode (challenge msg server reason at.nonce),
  )
