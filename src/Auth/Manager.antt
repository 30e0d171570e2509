-- ===== src/Auth/Manager.antt =====
-- src/auth.rs, `AuthManager`. `now` is the seconds since 1970.
use miuturn.Common.{
  ℕ, List, [], ◌∷◌, ◌++◌, Option, none, some, Bool, false, not, ◌&&◌, ltb, ◌==◌, if◌then◌else◌, map,
  retain, Text,
}
use miuturn.Common.Map.{lookup, insert, remove}
use miuturn.Common.Texts.{Text-discrete, same_text}
use miuturn.Auth.Acl.{AclRule, decide, sort_rules}

pub data UserType : Type 0 where
  temporary fixed api_key : UserType

pub record User : Type 0 where
  pub username : Text
  pub password : Text
  pub user_type : UserType
  pub created_at : ℕ
  pub expires_at : Option ℕ
  pub max_allocations : ℕ
  pub bandwidth_limit : Option ℕ
  pub ip_whitelist : Option (List Text)
  pub max_allocation_duration_secs : Option ℕ

pub record AuthManager : Type 0 where
  pub users : List (Text × User)
  pub api_keys : List (Text × Text)
  pub acl_rules : List AclRule
  pub realm : Text

unfoldable pub new : Text → AuthManager
new realm = record { users = []; api_keys = []; acl_rules = []; realm = realm }

abbrev pub insert_users : List User → List (Text × User) → List (Text × User)
insert_users [] m = m
insert_users (user ∷ users) m = insert_users users (insert Text-discrete user.username user m)

-- The rules are kept in the order given.
unfoldable pub load_from_config :
    AuthManager → List User → List (Text × Text) → List AclRule → AuthManager
load_from_config manager users api_keys rules = record manager {
  users = insert_users users manager.users;
  api_keys = api_keys;
  acl_rules = rules;
}

-- A user without an end never expires.
abbrev pub has_expired : User → ℕ → Bool
has_expired user now = elim user.expires_at [ none ↦ false | some expires ↦ ltb expires now ]

unfoldable pub authenticate : AuthManager → Text → Text → ℕ → Option User
authenticate manager username password now = elim (lookup Text-discrete username manager.users) [
  | none ↦ none
  | some user ↦
      if same_text user.password password
      then if has_expired user now then none else some user
      else none
]

unfoldable pub authenticate_api_key : AuthManager → Text → Option Text
authenticate_api_key manager key = lookup Text-discrete key manager.api_keys

unfoldable pub check_acl : AuthManager → Text → Bool
unfolding decide
check_acl manager ip = decide manager.acl_rules ip

unfoldable pub add_user : AuthManager → User → AuthManager
add_user manager user = record manager {
  users = insert Text-discrete user.username user manager.users;
}

unfoldable pub remove_user : AuthManager → Text → AuthManager
remove_user manager username = record manager {
  users = remove Text-discrete username manager.users;
}

unfoldable pub list_users : AuthManager → List User
list_users manager = map (λ e. e.1) manager.users

unfoldable pub add_acl_rule : AuthManager → AclRule → AuthManager
add_acl_rule manager rule = record manager {
  acl_rules = sort_rules (manager.acl_rules ++ rule ∷ []);
}

unfoldable pub remove_acl_rule : AuthManager → Text → ℕ → AuthManager
remove_acl_rule manager ip_range priority = record manager {
  acl_rules =
      retain (λ r. not (same_text r.ip_range ip_range && r.priority == priority)) manager.acl_rules;
}

-- The password of a user who exists and has not expired.
unfoldable pub get_user_password : AuthManager → Text → ℕ → Option Text
get_user_password manager username now = elim (lookup Text-discrete username manager.users) [
  | none ↦ none
  | some user ↦ if has_expired user now then none else some user.password
]
