-- ===== src/Server/Login.antt =====
-- src/server.rs, `verify_turn_auth`: which requests pass, and what the others change.
use miuturn.Common.{
  ℕ, ◌-◌, ◌/◌, ◌≤◌, ◌≡◌, ◌≢◌, ◌↔◌, refl, subst, List, some, true, false, arith, length, take, Text,
  Option-cases, inl, inr,
}
use miuturn.Common.Map.{lookup}
use miuturn.Common.Texts.{Text-discrete}
use miuturn.Net.{SocketAddr, ip}
use miuturn.Bandwidth.Limiter.{nanos}
use miuturn.Message.Types.{Message, Attribute}
use miuturn.Message.AttrType
use miuturn.Message.Codec.{get_attribute}
use miuturn.Server.State.{Externals, Moment, TurnServer, Reply, get_password_for_user}
use miuturn.Server.Integrity.{
  compute_message_integrity_key, verify_message_integrity, signed_bytes, before_integrity,
}
use miuturn.Server.Branches.{bool_case, by_method}
use miuturn.Server.Preserves.{verify_turn_auth-tables}
use miuturn.Server.Dispatch.{process_message}
use miuturn.Server.Handlers.{handle_allocate}
use miuturn.Server.Requests.{handle_refresh, handle_create_permission, handle_channel_bind}
use miuturn.Message.Types.{send}
use miuturn.Server.Verify.{
  conclude, with_auth, Verdict, accepted, refused, failed, acl_allows, verify_turn_auth,
}

module _ (ext : Externals) (msg : Message) where
  -- The code of the bytes in front of the first MESSAGE-INTEGRITY, under a key.
  abbrev pub Genuine : List ℕ → Attribute → Type 0
  Genuine key integrity =
      take 20 (ext.hmac_sha1 key (signed_bytes ext msg (before_integrity ext msg.attributes)))
      ≡ take 20 integrity.value

  verify_message_integrity-true :
      (key : List ℕ)
      → verify_message_integrity ext msg key ≡ some true
      → (integrity : Attribute) × (get_attribute msg AttrType.message_integrity ≡ some integrity)
        × (20 ≤ length integrity.value)
        × Genuine key integrity
  unfolding verify_message_integrity
  verify_message_integrity-true key e =
      elim (Option-cases (get_attribute msg AttrType.message_integrity)) [
        | inl missing ↦ absurd (ground (arith, missing, e))
        | inr (integrity, has) ↦ (integrity, has, ground (arith, has, e), ground (arith, has, e))
      ]

module _ (ext : Externals) (server : TurnServer) (msg : Message) (client : SocketAddr)
    (at : Moment) where
  -- A request of the user that the long-term credentials admit: the access rules let the client in,
  -- the nonce is one of the server's and at most 600 whole seconds old, the user has a password, and
  -- the first MESSAGE-INTEGRITY begins with the code of what stands before it.
  pub record IsAuthentic (username : Text) : Type 0 where
    pub admitted : acl_allows server.auth_manager (ext.print_ip (ip client)) ≡ true
    pub nonce : Attribute
    pub has_nonce : get_attribute msg AttrType.nonce ≡ some nonce
    pub user : Attribute
    pub has_user : get_attribute msg AttrType.username ≡ some user
    pub names : ext.from_utf8_lossy user.value ≡ username
    pub created_at : ℕ
    pub known :
        lookup Text-discrete (ext.from_utf8_lossy nonce.value) server.nonce_map ≡ some created_at
    pub fresh : (at.now - created_at) / nanos ≤ 600
    pub password : Text
    pub has_password : get_password_for_user server username at.unix_secs ≡ some password
    pub integrity : Attribute
    pub has_integrity : get_attribute msg AttrType.message_integrity ≡ some integrity
    pub long_enough : 20 ≤ length integrity.value
    pub genuine :
        Genuine ext msg (compute_message_integrity_key ext username server.realm password) integrity

  admits :
      (username : Text)
      → server.auth_disabled ≡ false
      → IsAuthentic username
      → (verify_turn_auth ext server msg client at).1 ≡ accepted username
  unfolding verify_turn_auth verify_message_integrity
  admits username on a = ground (
    arith, on, a.admitted, a.has_nonce, a.has_user, a.names, a.known, a.fresh, a.has_password,
    a.has_integrity, a.long_enough, a.genuine,
  )

  -- What follows once the nonce, the user and the password are found.
  passed :
      (username : Text) (nonce user : Attribute) (created_at : ℕ) (password : Text)
      → server.auth_disabled ≡ false
      → (verify_turn_auth ext server msg client at).1 ≡ accepted username
      → get_attribute msg AttrType.nonce ≡ some nonce
      → get_attribute msg AttrType.username ≡ some user
      → lookup Text-discrete (ext.from_utf8_lossy nonce.value) server.nonce_map ≡ some created_at
      → get_password_for_user server (ext.from_utf8_lossy user.value) at.unix_secs ≡ some password
      → (acl_allows server.auth_manager (ext.print_ip (ip client)) ≡ true)
        × (ext.from_utf8_lossy user.value ≡ username)
        × ((at.now - created_at) / nanos ≤ 600)
        × (verify_message_integrity ext msg (
              compute_message_integrity_key ext
                (ext.from_utf8_lossy user.value)
                server.realm
                password)
            ≡ some true)
  unfolding verify_turn_auth
  passed username nonce user created_at password on e hn hu hk hp =
      ground (arith, on, e, hn, hu, hk, hp)

  admitted_only :
      (username : Text)
      → server.auth_disabled ≡ false
      → (verify_turn_auth ext server msg client at).1 ≡ accepted username
      → IsAuthentic username
  unfolding verify_turn_auth
  admitted_only username on e = elim (Option-cases (get_attribute msg AttrType.nonce)) [
    | inl no_nonce ↦ absurd (ground (arith, on, e, no_nonce))
    | inr (nonce, hn) ↦ elim (Option-cases (get_attribute msg AttrType.username)) [
      | inl no_user ↦ absurd (ground (arith, on, e, hn, no_user))
      | inr (user, hu) ↦
          elim (Option-cases
            (lookup Text-discrete (ext.from_utf8_lossy nonce.value) server.nonce_map)) [
              | inl unknown ↦ absurd (ground (arith, on, e, hn, hu, unknown))
              | inr (created_at, hk) ↦
                  elim (Option-cases
                    (get_password_for_user server (ext.from_utf8_lossy user.value) at.unix_secs)) [
                      | inl no_password ↦ absurd (ground (arith, on, e, hn, hu, hk, no_password))
                      | inr (password, hp) ↦
                          let (admitted, names, fresh, valid) =
                            passed username nonce user created_at password on e hn hu hk hp in
                          let (integrity, has, long, genuine) =
                            verify_message_integrity-true ext msg _ valid in
                          record {
                            admitted = admitted;
                            nonce = nonce;
                            has_nonce = hn;
                            user = user;
                            has_user = hu;
                            names = names;
                            created_at = created_at;
                            known = hk;
                            fresh = fresh;
                            password = password;
                            has_password =
                                subst
                                  (λ u. get_password_for_user server u at.unix_secs ≡ some password)
                                  names hp;
                            integrity = integrity;
                            has_integrity = has;
                            long_enough = long;
                            genuine =
                                subst
                                  (λ u.
                                    Genuine ext msg
                                      (compute_message_integrity_key ext u server.realm password)
                                      integrity)
                                  names genuine;
                          }
                    ]
            ]
    ]
  ]

  -- With authentication on, a request is accepted for a user name exactly when its credentials are
  -- authentic: the access rules, the nonce and its age, the password and the code all pass.
  pub verify_turn_auth-accepted :
      (username : Text)
      → server.auth_disabled ≡ false
      → ((verify_turn_auth ext server msg client at).1 ≡ accepted username) ↔ IsAuthentic username
  verify_turn_auth-accepted username on = (admitted_only username on, admits username on)

  -- A request that is not accepted changes neither table.
  abbrev Unchanged : TurnServer × Reply → Type 0
  Unchanged r =
      (r.0.allocation_table ≡ server.allocation_table) × (r.0.channel_table ≡ server.channel_table)

  conclude-Unchanged :
      (result : TurnServer × Verdict) (handler : TurnServer → Text → TurnServer × Reply)
      → ((username : Text) → result.1 ≢ accepted username)
      → result.0.allocation_table ≡ server.allocation_table
      → result.0.channel_table ≡ server.channel_table
      → Unchanged (conclude result handler)
  conclude-Unchanged (s, failed) handler never ha hc = (ha, hc)
  conclude-Unchanged (s, refused bytes) handler never ha hc = (ha, hc)
  conclude-Unchanged (s, accepted username) handler never ha hc = absurd (never username refl)

  with_auth-Unchanged :
      (handler : TurnServer → Text → TurnServer × Reply)
      → server.auth_disabled ≡ false
      → ((username : Text) → ¬ IsAuthentic username)
      → Unchanged (with_auth ext server msg client at handler)
  with_auth-Unchanged handler on nobody =
      let (same, same') = verify_turn_auth-tables ext msg client at server in
      conclude-Unchanged (verify_turn_auth ext server msg client at) handler
        (λ username e. nobody username (admitted_only username on e)) same same'

  -- With authentication on, a message that is not a Send indication and whose credentials are not
  -- authentic for any user name leaves the allocations and the channels as they are.
  pub process_message-Unchanged :
      server.auth_disabled ≡ false
      → (msg.header).method ≢ send
      → ((username : Text) → ¬ IsAuthentic username)
      → (process_message ext server msg client at).0.allocation_table ≡ server.allocation_table
        × ((process_message ext server msg client at).0.channel_table ≡ server.channel_table)
  unfolding process_message handle_allocate handle_refresh handle_create_permission
      handle_channel_bind
  process_message-Unchanged on other nobody =
      bool_case Unchanged _ (refl, refl)
        (by_method Unchanged (msg.header).method _ _ _ _ _ _ _ (with_auth-Unchanged _ on nobody)
          (with_auth-Unchanged _ on nobody) (with_auth-Unchanged _ on nobody)
          (with_auth-Unchanged _ on nobody) (λ e. absurd (other e)) (refl, refl) (refl, refl))
