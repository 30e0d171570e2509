-- ===== src/Config/Save.antt =====
-- src/health.rs, `save_config`: the users and the access rules as a configuration. The existing
-- file, read by the library if it is there and can be read, is an argument.
use miuturn.Common.{Option, none, some, map, Text}
use miuturn.Common.Texts.{codes}
use miuturn.Auth.Acl.{AclRule, AclAction, allow, deny}
use miuturn.Auth.Manager.{User, UserType, temporary, fixed, api_key, AuthManager, list_users}
use miuturn.Config.Types.{Config, UserConfig, AclRuleConfig, default_config}

abbrev pub type_name : UserType → Text
type_name temporary = codes "temporary"
type_name fixed = codes "fixed"
type_name api_key = codes "api_key"

abbrev pub action_name : AclAction → Text
action_name allow = codes "Allow"
action_name deny = codes "Deny"

unfoldable pub config_of_user : User → UserConfig
config_of_user u = record {
  username = u.username;
  password = u.password;
  user_type = type_name u.user_type;
  expires_at = u.expires_at;
  max_allocations = some u.max_allocations;
  bandwidth_limit = u.bandwidth_limit;
  ip_whitelist = u.ip_whitelist;
  max_allocation_duration_secs = u.max_allocation_duration_secs;
}

unfoldable pub config_of_rule : AclRule → AclRuleConfig
config_of_rule r = record {
  ip_range = r.ip_range;
  action = action_name r.action;
  priority = some r.priority;
}

abbrev pub existing_or_default : Option Config → Config
existing_or_default none = default_config
existing_or_default (some c) = c

-- The configuration that is written. Only users and rules are replaced.
unfoldable pub save_config : AuthManager → Option Config → Config
save_config manager existing =
    let c = existing_or_default existing in
    record c {
      auth = record (c.auth) {
        users = map config_of_user (list_users manager);
        acl_rules = map config_of_rule manager.acl_rules;
      };
    }
