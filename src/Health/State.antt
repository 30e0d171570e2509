-- ===== src/Health/State.antt =====
-- src/health.rs: what the HTTP server keeps, what a request brings along, and the answers. The web
-- framework reads requests and writes answers; each answer is named here with what it is made of.
use miuturn.Common.{ℕ, List, Option, none, some, Bool, true, false, Text}
use miuturn.Common.Texts.{codes}
use miuturn.Net.{SocketAddr}
use miuturn.Auth.Acl.{AclRule}
use miuturn.Auth.Manager.{UserType, AuthManager}
use miuturn.Auth.ShortTerm.{ShortTermCredentialManager, new, with_lifetime}
use miuturn.Metrics.{MetricsInner}
use miuturn.Config.Types.{Config, HttpConfig, ListenConfig}
use miuturn.Config.Save.{save_config}

pub record AdminState : Type 0 where
  pub admin_username : Option Text
  pub admin_password : Option Text

pub record TurnRestState : Type 0 where
  pub enabled : Bool
  pub credential_manager : Option ShortTermCredentialManager

pub record AppState : Type 0 where
  pub admin : AdminState
  pub turn_rest : TurnRestState
  pub metrics : Option MetricsInner
  pub config_path : Option Text
  pub external_ip : Text
  pub listen_configs : List ListenConfig
  pub admin_acl : List Text
  pub trust_proxy : Bool

-- The users and rules are shared with the server. `file` is what the configuration file at
-- `config_path` is read as, if it is there and can be read.
pub record Site : Type 0 where
  pub app : AppState
  pub auth : AuthManager
  pub file : Option Config

pub record ServerStatsSnapshot : Type 0 where
  pub total_allocations : ℕ
  pub active_allocations : ℕ
  pub total_bytes_relayed : ℕ
  pub total_messages : ℕ

-- Functions of other libraries: trimming of white space, reading of a socket address, HMAC-SHA1 and
-- hexadecimal print.
pub record Web : Type 0 where
  pub trim : Text → Text
  pub parse_socket_addr : Text → Option SocketAddr
  pub hmac_sha1 : List ℕ → List ℕ → List ℕ
  pub hex : List ℕ → Text

-- What comes with a request: the printed address of the client, the headers that are text, the
-- cookies, the seconds since 1970, the instant, the statistics, and what the file is read as after
-- a configuration is written to it.
pub record Visit : Type 0 where
  pub addr : Text
  pub x_forwarded_for : Option Text
  pub x_real_ip : Option Text
  pub jar : List (Text × Text)
  pub unix_secs : ℕ
  pub now : ℕ
  pub stats : ServerStatsSnapshot
  pub written : Config → Option Config

-- A user in the statistics.
pub record UserView : Type 0 where
  pub username : Text
  pub user_type : UserType
  pub max_allocations : ℕ
  pub expires_at : Option ℕ
  pub bandwidth_limit : Option ℕ
  pub max_allocation_duration_secs : Option ℕ
  pub ip_whitelist : Option (List Text)

pub data Answer : Type 0 where
  redirect exported : Text → Answer
  login_page admin_page redirecting_page forbidden unauthorized : Answer
  health_status reloaded : ServerStatsSnapshot → Answer
  statistics : Text → ServerStatsSnapshot → List UserView → List AclRule → Answer
  logged_in invalid_credentials user_deleted rule_deleted : Answer
  user_added user_updated rule_added rule_updated : Text → Text → ℕ → Answer
  no_ice_servers turn_rest_disabled turn_rest_unconfigured failed : Answer
  ice_servers : List Text → Text → Text → Answer
  turn_credentials : Text → Text → ℕ → Answer

-- What an answer does to the cookies of the client.
pub data CookieChange : Type 0 where
  kept session_removed : CookieChange
  session_set : Text → Text → CookieChange

-- The secret has a fixed default.
abbrev pub secret_or_default : Option Text → Text
secret_or_default none = codes "default-secret-key"
secret_or_default (some secret) = secret

unfoldable pub turn_rest_state : Bool → Option Text → ℕ → TurnRestState
turn_rest_state false secret lifetime = record { enabled = false; credential_manager = none }
turn_rest_state true secret lifetime = record {
  enabled = true;
  credential_manager = some (with_lifetime (new (secret_or_default secret)) lifetime);
}

abbrev pub bool_or_false : Option Bool → Bool
bool_or_false none = false
bool_or_false (some b) = b

abbrev pub lifetime_or_hour : Option ℕ → ℕ
lifetime_or_hour none = 3600
lifetime_or_hour (some n) = n

-- The state that the start of the program hands over.
unfoldable pub app_of_config : Config → HttpConfig → MetricsInner → Text → AppState
unfolding turn_rest_state
app_of_config c http metrics config_path = record {
  admin = record { admin_username = http.admin_username; admin_password = http.admin_password };
  turn_rest =
      turn_rest_state (bool_or_false http.turn_rest_enabled) http.turn_rest_secret
        (lifetime_or_hour http.turn_rest_default_lifetime);
  metrics = some metrics;
  config_path = some config_path;
  external_ip = (c.server).external_ip;
  listen_configs = (c.server).listening;
  admin_acl = http.admin_acl;
  trust_proxy = bool_or_false http.trust_proxy;
}

-- `save_config` with its test of the path. The errors are only logged.
unfoldable pub write_config : Site → Visit → Site
unfolding save_config
write_config site visit = elim site.app.config_path [
  | none ↦ site
  | some path ↦ record site { file = visit.written (save_config site.auth site.file) }
]
