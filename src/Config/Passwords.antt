-- ===== src/Config/Passwords.antt =====
-- src/main.rs: the passwords that the server of a configuration takes.
use miuturn.Common.{
  ℕ, All, subst, ◌≡◌, refl, sym, List, [], ◌∷◌, Option, none, some, arith, map, Text,
}
use miuturn.Common.Map.{lookup, lookup-insert, lookup-insert_self}
use miuturn.Common.Texts.{Text-discrete, codes}
use miuturn.Allocations.Table.{Ipv4Addr}
use miuturn.Auth.Acl.{AclRule}
use miuturn.Auth.Manager.{User, AuthManager, new, add_user, add_acl_rule, get_user_password}
use miuturn.Server.State.{TurnServer, get_password_for_user}
use miuturn.Server.Start.{
  with_port_range_limits_bind_address_and_password, set_server_name, set_protocol_enabled,
  set_auth_manager,
}
use miuturn.Config.Types.{Config}
use miuturn.Config.Load.{
  start, manager_of_config, add_users, add_rules, api_key_user, user_of_config, rule_of_config,
}

started :
    (parse_ipv4 : Text → Option Ipv4Addr) (now unix_secs : ℕ) (c : Config) (server : TurnServer)
    → start parse_ipv4 now unix_secs c ≡ some server
    → (server.password ≡ codes "password")
      × (server.auth_manager ≡ some (manager_of_config unix_secs c))
unfolding start set_auth_manager set_protocol_enabled set_server_name
    with_port_range_limits_bind_address_and_password
started parse_ipv4 now unix_secs c server e = ground (arith, e)

-- A server that starts takes the password "password" from every user whom its users do not include,
-- and from every user whose time has ended, whatever the configuration says.
pub start-password :
    (parse_ipv4 : Text → Option Ipv4Addr) (now unix_secs : ℕ) (c : Config) (server : TurnServer)
    (username : Text) (later : ℕ)
    → start parse_ipv4 now unix_secs c ≡ some server
    → get_user_password (manager_of_config unix_secs c) username later ≡ none
    → get_password_for_user server username later ≡ some (codes "password")
unfolding get_password_for_user
start-password parse_ipv4 now unix_secs c server username later e unknown =
    let (password, manager) = started parse_ipv4 now unix_secs c server e in
    ground (arith, manager, unknown, password)

add_rules-users : (m : AuthManager) (rules : List AclRule) → (add_rules m rules).users ≡ m.users
unfolding add_rules add_acl_rule
add_rules-users m [] = refl
add_rules-users m (r ∷ rules) = add_rules-users (add_acl_rule m r) rules

abbrev key_users : List (Text × Text) → List User
key_users keys = map (λ e. api_key_user e.1) keys

abbrev IsOpen : AuthManager → Text → Type 0
IsOpen m name = lookup Text-discrete name m.users ≡ some (api_key_user name)

entered :
    (m : AuthManager) (user name : Text)
    → IsOpen m name
    → IsOpen (add_user m (api_key_user user)) name
unfolding add_user api_key_user
entered m user name h =
    let law = lookup-insert Text-discrete user name (api_key_user user) m.users in
    elim (Text-discrete user name) [
      | yes e ↦ ground (arith, law, e)
      | no n ↦ ground (arith, law, n, h)
    ]

stays-IsOpen :
    (m : AuthManager) (keys : List (Text × Text)) (name : Text)
    → IsOpen m name
    → IsOpen (add_users m (key_users keys)) name
unfolding add_users add_user
stays-IsOpen m [] name h = h
stays-IsOpen m ((key, user) ∷ keys) name h =
    stays-IsOpen (add_user m (api_key_user user)) keys name (entered m user name h)

opened :
    (m : AuthManager) (keys : List (Text × Text))
    → All (λ e. IsOpen (add_users m (key_users keys)) e.1) keys
unfolding add_users add_user api_key_user
opened m [] = tt
opened m ((key, user) ∷ keys) = (
  stays-IsOpen (add_user m (api_key_user user)) keys user
      (lookup-insert_self Text-discrete user (api_key_user user) m.users),
  opened (add_user m (api_key_user user)) keys,
)

open_password :
    (m : AuthManager) (keys : List (Text × Text)) (later : ℕ)
    → All (λ e. IsOpen m e.1) keys
    → All (λ e. get_user_password m e.1 later ≡ some []) keys
unfolding get_user_password api_key_user
open_password m [] later h = tt
open_password m ((key, user) ∷ keys) later h = (ground (arith, h.0), open_password m keys later h.1)

-- Each user of an API key has an empty password, whatever password the configuration gives to a
-- user of that name.
pub api_keys-Open :
    (unix_secs later : ℕ) (c : Config)
    → All
        (λ e. get_user_password (manager_of_config unix_secs c) e.1 later ≡ some [])
        (c.auth).api_keys
unfolding manager_of_config
api_keys-Open unix_secs later c =
    let with_users : AuthManager =
      add_users (new (c.server).realm) (map (user_of_config unix_secs) (c.auth).users) in
    let with_keys : AuthManager = add_users with_users (key_users (c.auth).api_keys) in
    let rules : List AclRule = map rule_of_config (c.auth).acl_rules in
    open_password (add_rules with_keys rules) (c.auth).api_keys later (
      subst
        (λ u.
          All (λ (e : Text × Text). lookup Text-discrete e.1 u ≡ some (api_key_user e.1))
            (c.auth).api_keys)
        (sym (add_rules-users with_keys rules)) (opened with_users (c.auth).api_keys))
