-- ===== src/Server/Panics.antt =====
-- src/server.rs: requests whose attributes are too short.
use miuturn.Common.{ℕ, ◌-◌, ◌/◌, ◌≤◌, ◌<◌, ◌≡◌, some, true, false, arith, length, Text}
use miuturn.Common.Map.{lookup}
use miuturn.Common.Texts.{Text-discrete}
use miuturn.Net.{SocketAddr, ip}
use miuturn.Bandwidth.Limiter.{nanos}
use miuturn.Message.Types.{Message, Attribute}
use miuturn.Message.AttrType
use miuturn.Message.Codec.{get_attribute}
use miuturn.Server.State.{Externals, Moment, TurnServer, get_password_for_user, panicked}
use miuturn.Server.Integrity.{verify_message_integrity}
use miuturn.Server.Verify.{accepted, failed, acl_allows, verify_turn_auth}
use miuturn.Server.Handlers.{handle_allocate, get_lifetime}
use miuturn.Server.Requests.{handle_refresh, handle_create_permission, handle_channel_bind}

module _ (ext : Externals) (server : TurnServer) (msg : Message) (client : SocketAddr)
    (at : Moment) where
  short_integrity_fails :
      (nonce user integrity : Attribute) (created_at : ℕ) (password : Text)
      → server.auth_disabled ≡ false
      → acl_allows server.auth_manager (ext.print_ip (ip client)) ≡ true
      → get_attribute msg AttrType.nonce ≡ some nonce
      → get_attribute msg AttrType.username ≡ some user
      → lookup Text-discrete (ext.from_utf8_lossy nonce.value) server.nonce_map ≡ some created_at
      → (at.now - created_at) / nanos ≤ 600
      → get_password_for_user server (ext.from_utf8_lossy user.value) at.unix_secs ≡ some password
      → get_attribute msg AttrType.message_integrity ≡ some integrity
      → length integrity.value < 20
      → verify_turn_auth ext server msg client at ≡ (server, failed)
  unfolding verify_turn_auth verify_message_integrity
  short_integrity_fails nonce user integrity created_at password on acl hn hu hk fresh hp hi short =
      ground (arith, on, acl, hn, hu, hk, fresh, hp, hi, short)

  -- With authentication on, a request with a nonce of the server that is fresh and the name of any
  -- user who has a password, from an address that the access rules admit, makes its handler panic if
  -- its MESSAGE-INTEGRITY is shorter than twenty bytes. No knowledge of the password is needed.
  pub short_integrity_panics :
      (nonce user integrity : Attribute) (created_at : ℕ) (password : Text)
      → server.auth_disabled ≡ false
      → acl_allows server.auth_manager (ext.print_ip (ip client)) ≡ true
      → get_attribute msg AttrType.nonce ≡ some nonce
      → get_attribute msg AttrType.username ≡ some user
      → lookup Text-discrete (ext.from_utf8_lossy nonce.value) server.nonce_map ≡ some created_at
      → (at.now - created_at) / nanos ≤ 600
      → get_password_for_user server (ext.from_utf8_lossy user.value) at.unix_secs ≡ some password
      → get_attribute msg AttrType.message_integrity ≡ some integrity
      → length integrity.value < 20
      → (handle_allocate ext server msg client at ≡ (server, panicked))
        × (handle_refresh ext server msg client at ≡ (server, panicked))
        × (handle_create_permission ext server msg client at ≡ (server, panicked))
        × (handle_channel_bind ext server msg client at ≡ (server, panicked))
  unfolding handle_allocate handle_refresh handle_create_permission handle_channel_bind
  short_integrity_panics nonce user integrity created_at password on acl hn hu hk fresh hp hi
        short =
      let fails =
        short_integrity_fails nonce user integrity created_at password on acl hn hu hk fresh hp hi
          short in
      ground (arith, fails)

  -- So does an Allocate or a Refresh request that is accepted, if its LIFETIME is shorter than four
  -- bytes.
  short_lifetime_panics :
      (server' : TurnServer) (username : Text) (lifetime : Attribute)
      → verify_turn_auth ext server msg client at ≡ (server', accepted username)
      → get_attribute msg AttrType.lifetime ≡ some lifetime
      → length lifetime.value < 4
      → (handle_allocate ext server msg client at ≡ (server', panicked))
        × (handle_refresh ext server msg client at ≡ (server', panicked))
  unfolding handle_allocate handle_refresh get_lifetime
  short_lifetime_panics server' username lifetime e hl short = ground (arith, e, hl, short)
