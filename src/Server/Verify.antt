-- ===== src/Server/Verify.antt =====
-- src/server.rs, `verify_turn_auth`: the long-term credentials of a request.
use miuturn.Common.{ℕ, ◌-◌, ◌/◌, List, [], Option, none, some, Bool, true, false, ltb, Text}
use miuturn.Common.Map.{lookup}
use miuturn.Common.Texts.{Text-discrete, codes}
use miuturn.Net.{SocketAddr, ip}
use miuturn.Bandwidth.Limiter.{nanos}
use miuturn.Message.Types.{Message, Attribute, forbidden}
use miuturn.Message.AttrType
use miuturn.Message.Codec.{get_attribute}
use miuturn.Auth.Manager.{AuthManager, check_acl}
use miuturn.Server.State.{
  Externals, Moment, TurnServer, get_password_for_user, create_error_response_bytes,
  create_401_response, Reply, reply, panicked,
}
use miuturn.Server.Integrity.{compute_message_integrity_key, verify_message_integrity}

-- The user name of a request that passes, the response to one that does not, or a panic.

pub data Verdict : Type 0 where
  accepted : Text → Verdict
  refused : List ℕ → Verdict
  failed : Verdict

abbrev pub acl_allows : Option AuthManager → Text → Bool
acl_allows none client_ip = true
acl_allows (some manager) client_ip = check_acl manager client_ip

-- A refusal is the response, and what follows has the name of the user.
abbrev pub conclude :
    TurnServer × Verdict → (TurnServer → Text → TurnServer × Reply) → TurnServer × Reply
conclude (server, failed) handler = (server, panicked)
conclude (server, refused bytes) handler = (server, reply bytes)
conclude (server, accepted username) handler = handler server username

module _ (ext : Externals) where
  abbrev pub text_of : Option Attribute → Text
  text_of none = []
  text_of (some a) = ext.from_utf8_lossy a.value

  abbrev pub unauthorized_with : TurnServer → Message → Moment → Option Text → TurnServer × Verdict
  unauthorized_with server msg at reason =
      let (server', bytes) = create_401_response ext msg server at reason in
      (server', refused bytes)

  abbrev pub judge_integrity : TurnServer → Message → Moment → Text → Text → TurnServer × Verdict
  judge_integrity server msg at username password =
      let key = compute_message_integrity_key ext username server.realm password in
      elim (verify_message_integrity ext msg key) [
        | none ↦ (server, failed)
        | some false ↦ unauthorized_with server msg at (some (codes "Bad integrity"))
        | some true ↦ (server, accepted username)
      ]

  abbrev pub judge_user : TurnServer → Message → Moment → Text → TurnServer × Verdict
  judge_user server msg at username = elim (get_password_for_user server username at.unix_secs) [
    | none ↦ unauthorized_with server msg at (some (codes "Unknown user"))
    | some password ↦ judge_integrity server msg at username password
  ]

  -- The nonce must be known and at most 600 whole seconds old.
  abbrev pub judge_nonce : TurnServer → Message → Moment → Text → Text → TurnServer × Verdict
  judge_nonce server msg at nonce username = elim (lookup Text-discrete nonce server.nonce_map) [
    | none ↦ unauthorized_with server msg at (some (codes "Invalid nonce"))
    | some created_at ↦ elim (ltb 600 ((at.now - created_at) / nanos)) [
      | true ↦ unauthorized_with server msg at (some (codes "Nonce expired"))
      | false ↦ judge_user server msg at username
    ]
  ]

  abbrev pub judge_credentials : TurnServer → Message → Moment → TurnServer × Verdict
  judge_credentials server msg at = elim (get_attribute msg AttrType.nonce) [
    | none ↦ unauthorized_with server msg at none
    | some nonce_attr ↦ elim (get_attribute msg AttrType.username) [
      | none ↦ unauthorized_with server msg at none
      | some username_attr ↦
          judge_nonce server msg at (ext.from_utf8_lossy nonce_attr.value)
            (ext.from_utf8_lossy username_attr.value)
    ]
  ]

  unfoldable pub verify_turn_auth :
      TurnServer → Message → SocketAddr → Moment → TurnServer × Verdict
  verify_turn_auth server msg client_addr at = elim server.auth_disabled [
    | true ↦ (server, accepted (text_of (get_attribute msg AttrType.username)))
    | false ↦ elim (acl_allows server.auth_manager (ext.print_ip (ip client_addr))) [
      | false ↦ (server, refused (create_error_response_bytes ext msg forbidden server))
      | true ↦ judge_credentials server msg at
    ]
  ]

  -- How each handler of a request begins.
  abbrev pub with_auth :
      TurnServer
      → Message
      → SocketAddr
      → Moment
      → (TurnServer → Text → TurnServer × Reply)
      → TurnServer × Reply
  with_auth server msg client_addr at handler =
      conclude (verify_turn_auth server msg client_addr at) handler
