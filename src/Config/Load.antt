-- ===== src/Config/Load.antt =====
-- src/main.rs: the server, the users and the access rules of a configuration. The library's reading
-- of an IPv4 address is an argument.
use miuturn.Common.{
  ℕ, ◌+◌, List, [], ◌∷◌, Option, none, some, Bool, true, false, ◌&&◌, ◌||◌, leb, if◌then◌else◌, map,
  Text,
}
use miuturn.Common.Texts.{codes, same_text}
use miuturn.Allocations.Table.{Ipv4Addr}
use miuturn.Auth.Acl.{AclRule, AclAction, allow, deny}
use miuturn.Auth.Manager.{
  User, UserType, temporary, fixed, api_key, AuthManager, new, add_user, add_acl_rule,
}
use miuturn.Config.Types.{Config, ListenConfig, UserConfig, AclRuleConfig}
use miuturn.Server.State.{TurnServer}
use miuturn.Server.Start.{
  with_port_range_limits_bind_address_and_password, set_server_name, set_protocol_enabled,
  set_auth_manager,
}

abbrev pub user_type_of : Text → UserType
user_type_of s =
    if same_text s (codes "temporary")
    then temporary
    else if same_text s (codes "api_key")
    then api_key
    else fixed

abbrev pub allocations_or_ten : Option ℕ → ℕ
allocations_or_ten none = 10
allocations_or_ten (some n) = n

unfoldable pub user_of_config : ℕ → UserConfig → User
user_of_config unix_secs c = record {
  username = c.username;
  password = c.password;
  user_type = user_type_of c.user_type;
  created_at = unix_secs;
  expires_at = c.expires_at;
  max_allocations = allocations_or_ten c.max_allocations;
  bandwidth_limit = c.bandwidth_limit;
  ip_whitelist = c.ip_whitelist;
  max_allocation_duration_secs = c.max_allocation_duration_secs;
}

-- The user of an API key has an empty password.
unfoldable pub api_key_user : Text → User
api_key_user username = record {
  username = username;
  password = [];
  user_type = api_key;
  created_at = 0;
  expires_at = none;
  max_allocations = 100;
  bandwidth_limit = none;
  ip_whitelist = none;
  max_allocation_duration_secs = none;
}

-- `eq_ignore_ascii_case`.
abbrev pub lower : ℕ → ℕ
lower c = if leb b'A' c && leb c b'Z' then c + 32 else c

abbrev pub action_of : Text → AclAction
action_of s = if same_text (map lower s) (codes "allow") then allow else deny

abbrev pub priority_or_zero : Option ℕ → ℕ
priority_or_zero none = 0
priority_or_zero (some n) = n

unfoldable pub rule_of_config : AclRuleConfig → AclRule
rule_of_config c = record {
  ip_range = c.ip_range;
  action = action_of c.action;
  priority = priority_or_zero c.priority;
}

unfoldable pub add_users : AuthManager → List User → AuthManager
add_users manager [] = manager
add_users manager (user ∷ users) = add_users (add_user manager user) users

unfoldable pub add_rules : AuthManager → List AclRule → AuthManager
add_rules manager [] = manager
add_rules manager (rule ∷ rules) = add_rules (add_acl_rule manager rule) rules

-- The three loops of the start, in their order.
unfoldable pub manager_of_config : ℕ → Config → AuthManager
manager_of_config unix_secs c =
    let with_users =
      add_users (new (c.server).realm) (map (user_of_config unix_secs) (c.auth).users) in
    let with_keys = add_users with_users (map (λ e. api_key_user e.1) (c.auth).api_keys) in
    add_rules with_keys (map rule_of_config (c.auth).acl_rules)

abbrev pub any_protocol : Text → List ListenConfig → Bool
any_protocol protocol [] = false
any_protocol protocol (l ∷ listening) =
    same_text l.protocol protocol || any_protocol protocol listening

abbrev pub address_or_zero : Option Ipv4Addr → Ipv4Addr
address_or_zero none = (0, 0, 0, 0)
address_or_zero (some a) = a

abbrev pub bind_ip : Option Text → Text
bind_ip none = codes "0.0.0.0"
bind_ip (some s) = s

-- The server with its users, if the certificates that it needs are configured. The password that
-- all users share is fixed.
unfoldable pub start : (Text → Option Ipv4Addr) → ℕ → ℕ → Config → Option TurnServer
start parse_ipv4 now unix_secs c =
    let s = c.server in
    let server =
      with_port_range_limits_bind_address_and_password (address_or_zero (parse_ipv4 s.external_ip))
        (address_or_zero (parse_ipv4 (bind_ip s.relay_bind_ip))) s.realm s.start_port s.end_port
        s.max_concurrent_allocations s.max_allocation_duration_secs (codes "password") false now in
    let named =
      set_protocol_enabled (set_server_name server s.server_name) s.stun_enabled s.turn_enabled in
    let ready = set_auth_manager named (manager_of_config unix_secs c) in
    let secure =
      any_protocol (codes "tls") s.listening || any_protocol (codes "dtls") s.listening in
    elim secure [
      | false ↦ some ready
      | true ↦ elim c.certificates [ none ↦ none | some certificates ↦ some ready ]
    ]
