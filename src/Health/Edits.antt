-- ===== src/Health/Edits.antt =====
-- src/health.rs: the handlers that change users and access rules.
use miuturn.Common.{ℕ, ◌^◌, List, [], Option, none, some, if◌then◌else◌, Text}
use miuturn.Common.Map.{lookup}
use miuturn.Common.Texts.{Text-discrete, codes, same_text, parse_unsigned}
use miuturn.Auth.Acl.{AclRule, AclAction, allow, deny, unwrap_or}
use miuturn.Auth.Manager.{User, AuthManager, add_user, remove_user, add_acl_rule, remove_acl_rule}
use miuturn.Config.Load.{user_type_of, allocations_or_ten}
use miuturn.Health.State.{
  Site, Visit, write_config, Answer, user_added, user_deleted, user_updated, rule_added,
  rule_deleted, rule_updated,
}
use miuturn.Health.Access.{with_session}

pub record AddUserRequest : Type 0 where
  pub username : Text
  pub password : Text
  pub user_type : Text
  pub max_allocations : Option ℕ
  pub expires_at : Option ℕ
  pub bandwidth_limit : Option ℕ
  pub ip_whitelist : Option (List Text)
  pub max_allocation_duration_secs : Option ℕ

pub record UpdateUserRequest : Type 0 where
  pub username : Text
  pub password : Option Text
  pub user_type : Text
  pub max_allocations : Option ℕ
  pub expires_at : Option ℕ
  pub bandwidth_limit : Option ℕ
  pub ip_whitelist : Option (List Text)
  pub max_allocation_duration_secs : Option ℕ

pub record AddAclRequest : Type 0 where
  pub ip_range : Text
  pub action : Text
  pub priority : ℕ

pub record UpdateAclRequest : Type 0 where
  pub original_ip_range : Text
  pub original_priority : ℕ
  pub ip_range : Text
  pub action : Text
  pub priority : ℕ

-- `unwrap_or_default` and `unwrap_or("")`.
abbrev pub text_or_empty : Option Text → Text
text_or_empty none = []
text_or_empty (some s) = s

abbrev pub priority_of : Option Text → ℕ
priority_of none = 0
priority_of (some s) = unwrap_or (parse_unsigned (2 ^ 32) s) 0

abbrev pub action_named : Text → AclAction
action_named action = if same_text action (codes "Allow") then allow else deny

abbrev pub added_user : ℕ → AddUserRequest → User
added_user unix_secs req = record {
  username = req.username;
  password = req.password;
  user_type = user_type_of req.user_type;
  created_at = unix_secs;
  expires_at = req.expires_at;
  max_allocations = allocations_or_ten req.max_allocations;
  bandwidth_limit = req.bandwidth_limit;
  ip_whitelist = req.ip_whitelist;
  max_allocation_duration_secs = req.max_allocation_duration_secs;
}

abbrev pub updated_user : ℕ → UpdateUserRequest → User
updated_user unix_secs req = record {
  username = req.username;
  password = text_or_empty req.password;
  user_type = user_type_of req.user_type;
  created_at = unix_secs;
  expires_at = req.expires_at;
  max_allocations = allocations_or_ten req.max_allocations;
  bandwidth_limit = req.bandwidth_limit;
  ip_whitelist = req.ip_whitelist;
  max_allocation_duration_secs = req.max_allocation_duration_secs;
}

-- The users and rules are changed and the file is written.
abbrev pub edited : Site → Visit → AuthManager → Answer → Site × Answer
edited site visit manager answer = (write_config (record site { auth = manager }) visit, answer)

unfoldable pub add_user_handler : Site → Visit → AddUserRequest → Site × Answer
add_user_handler site visit req = with_session site visit (
    edited site visit (add_user site.auth (added_user visit.unix_secs req))
      (user_added req.username req.user_type (allocations_or_ten req.max_allocations)))

-- The parameters of the query, each with its name.
unfoldable pub delete_user_handler : Site → Visit → List (Text × Text) → Site × Answer
delete_user_handler site visit params =
    let username = text_or_empty (lookup Text-discrete (codes "username") params) in
    with_session site visit (edited site visit (remove_user site.auth username) user_deleted)

unfoldable pub update_user_handler : Site → Visit → UpdateUserRequest → Site × Answer
update_user_handler site visit req =
    let without = remove_user site.auth req.username in
    with_session site visit (
      edited site visit (add_user without (updated_user visit.unix_secs req))
        (user_updated req.username req.user_type (allocations_or_ten req.max_allocations)))

unfoldable pub add_acl_handler : Site → Visit → AddAclRequest → Site × Answer
add_acl_handler site visit req =
    let rule : AclRule = record {
      ip_range = req.ip_range;
      action = action_named req.action;
      priority = req.priority;
    } in
    with_session site visit (
      edited site visit (add_acl_rule site.auth rule)
        (rule_added req.ip_range req.action req.priority))

unfoldable pub delete_acl_handler : Site → Visit → List (Text × Text) → Site × Answer
delete_acl_handler site visit params =
    let ip_range = text_or_empty (lookup Text-discrete (codes "ip_range") params) in
    let priority = priority_of (lookup Text-discrete (codes "priority") params) in
    with_session site visit
      (edited site visit (remove_acl_rule site.auth ip_range priority) rule_deleted)

unfoldable pub update_acl_handler : Site → Visit → UpdateAclRequest → Site × Answer
update_acl_handler site visit req =
    let without = remove_acl_rule site.auth req.original_ip_range req.original_priority in
    let rule : AclRule = record {
      ip_range = req.ip_range;
      action = action_named req.action;
      priority = req.priority;
    } in
    with_session site visit (
      edited site visit (add_acl_rule without rule)
        (rule_updated req.ip_range req.action req.priority))
