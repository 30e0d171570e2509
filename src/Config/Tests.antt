-- ===== src/Config/Tests.antt =====
-- Runs of src/config.rs, src/main.rs and of the saving of users and rules, and the theorems applied
-- to them.
use miuturn.Common.{◌≡◌, refl, [], ◌∷◌, Option, none, some, true, false, All, ℕ_discrete, Text}
use miuturn.Common.Map.{lookup}
use miuturn.Common.Texts.{codes, Text-discrete}
use miuturn.Allocations.Table.{Ipv4Addr}
use miuturn.Auth.Acl.{allow}
use miuturn.Auth.Manager.{User, fixed, AuthManager, check_acl, get_user_password, new, add_acl_rule}
use miuturn.Server.Start.{
  with_port_range_limits_bind_address_and_password, set_server_name, set_protocol_enabled,
  set_auth_manager,
}
use miuturn.Server.State.{TurnServer, get_password_for_user}
use miuturn.Config.Types.{Config, default_config}
use miuturn.Config.Load.{start, manager_of_config, add_users, add_rules, rule_of_config}
use miuturn.Config.Save.{save_config}
use miuturn.Config.Restore.{restored, manager_of_config-save_config}
use miuturn.Config.Passwords.{start-password, api_keys-Open}

abbrev alice : User
alice = record {
  username = codes "alice";
  password = codes "secret";
  user_type = fixed;
  created_at = 5;
  expires_at = none;
  max_allocations = 3;
  bandwidth_limit = none;
  ip_whitelist = none;
  max_allocation_duration_secs = none;
}

abbrev configured : AuthManager
configured = record {
  users = (codes "alice", alice) ∷ [];
  api_keys = [];
  acl_rules = record { ip_range = codes "10.0.0.1"; action = allow; priority = 2 } ∷ [];
  realm = codes "r";
}

no_keys : ((default_config).auth).api_keys ≡ []
unfolding default_config
no_keys = refl

manager_of_config-save_config_example :
    let m' = manager_of_config 9 (save_config configured none) in
    (m'.acl_rules ≡ configured.acl_rules)
    × ((ip : Text) → check_acl m' ip ≡ check_acl configured ip)
    × ((name : Text)
        → lookup Text-discrete name m'.users
          ≡ restored 9 (lookup Text-discrete name configured.users) none)
manager_of_config-save_config_example =
    manager_of_config-save_config configured none 9 (tt, tt) (tt, tt) (refl, tt) no_keys

abbrev no_addresses : Text → Option Ipv4Addr
no_addresses s = none

-- The default configuration with a key of the user admin.
abbrev with_key : Config
with_key = record default_config {
  auth = record (default_config.auth) { api_keys = (codes "key1", codes "admin") ∷ [] };
}

abbrev server : TurnServer
server =
    set_auth_manager
      (set_protocol_enabled
        (set_server_name
          (with_port_range_limits_bind_address_and_password (0, 0, 0, 0) (0, 0, 0, 0)
            (default_config.server).realm (default_config.server).start_port
            (default_config.server).end_port none none (codes "password") false 0)
          (default_config.server).server_name)
        true true)
      (manager_of_config 0 default_config)

starts : start no_addresses 0 0 default_config ≡ some server
unfolding start default_config Text-discrete ℕ_discrete
starts = refl

nobody : get_user_password (manager_of_config 0 default_config) (codes "mallory") 0 ≡ none
unfolding get_user_password manager_of_config default_config add_users add_rules add_acl_rule
    rule_of_config new
nobody = refl

start-password_example : get_password_for_user server (codes "mallory") 0 ≡ some (codes "password")
start-password_example =
    start-password no_addresses 0 0 default_config server (codes "mallory") 0 starts nobody

api_keys-Open_example :
    All
      (λ e. get_user_password (manager_of_config 0 with_key) e.1 7 ≡ some [])
      (with_key.auth).api_keys
api_keys-Open_example = api_keys-Open 0 7 with_key
