-- ===== src/Config/Types.antt =====
-- src/config.rs: the sections of the configuration and their defaults. What the file leaves out has
-- been filled in by the library that reads it.
use miuturn.Common.{ℕ, List, [], ◌∷◌, Option, none, some, Bool, true, false, Text}
use miuturn.Common.Texts.{codes}
use miuturn.Server.Start.{default_server_name}

pub record ListenConfig : Type 0 where
  pub protocol : Text
  pub address : Text

pub record ServerConfig : Type 0 where
  pub realm : Text
  pub external_ip : Text
  pub relay_bind_ip : Option Text
  pub start_port : ℕ
  pub end_port : ℕ
  pub listening : List ListenConfig
  pub max_concurrent_allocations : Option ℕ
  pub max_bandwidth_bytes_per_sec : Option ℕ
  pub max_allocation_duration_secs : Option ℕ
  pub stats_dump_interval_secs : ℕ
  pub stats_dump_skip_if_no_change : Bool
  pub server_name : Text
  pub stun_enabled : Bool
  pub turn_enabled : Bool

pub record HttpConfig : Type 0 where
  pub address : Text
  pub turn_rest_enabled : Option Bool
  pub turn_rest_secret : Option Text
  pub turn_rest_default_lifetime : Option ℕ
  pub admin_username : Option Text
  pub admin_password : Option Text
  pub admin_acl : List Text
  pub trust_proxy : Option Bool

unfoldable pub default_http : HttpConfig
default_http = record {
  address = codes "0.0.0.0:8080";
  turn_rest_enabled = some false;
  turn_rest_secret = none;
  turn_rest_default_lifetime = some 3600;
  admin_username = none;
  admin_password = none;
  admin_acl = codes "127.0.0.1" ∷ [];
  trust_proxy = some false;
}

pub record CertificateConfig : Type 0 where
  pub source : Text
  pub cert_path : Option Text
  pub key_path : Option Text
  pub domains : List Text
  pub email : Option Text
  pub environment : Option Text
  pub cache_dir : Option Text
  pub http01_address : Option Text
  pub renew_before_days : Option ℕ
  pub sds_address : Option Text
  pub sds_api : Option Text
  pub sds_resource_name : Option Text
  pub sds_node_id : Option Text
  pub sds_cluster : Option Text
  pub sds_timeout_secs : Option ℕ

pub record LogConfig : Type 0 where
  pub log_file : Option Text
  pub log_level : Text

unfoldable pub default_log : LogConfig
default_log = record { log_file = none; log_level = codes "info" }

pub record UserConfig : Type 0 where
  pub username : Text
  pub password : Text
  pub user_type : Text
  pub expires_at : Option ℕ
  pub max_allocations : Option ℕ
  pub bandwidth_limit : Option ℕ
  pub ip_whitelist : Option (List Text)
  pub max_allocation_duration_secs : Option ℕ

pub record AclRuleConfig : Type 0 where
  pub ip_range : Text
  pub action : Text
  pub priority : Option ℕ

-- The API keys with the names of their users, in the order of iteration.
pub record AuthConfig : Type 0 where
  pub users : List UserConfig
  pub api_keys : List (Text × Text)
  pub acl_rules : List AclRuleConfig

pub record Config : Type 0 where
  pub server : ServerConfig
  pub http : Option HttpConfig
  pub certificates : Option CertificateConfig
  pub auth : AuthConfig
  pub log : LogConfig

abbrev default_server : ServerConfig
default_server = record {
  realm = codes "miuturn";
  external_ip = codes "0.0.0.0";
  relay_bind_ip = none;
  start_port = 49152;
  end_port = 65535;
  listening =
      record { protocol = codes "udp"; address = codes "0.0.0.0:3478" }
      ∷ record { protocol = codes "tcp"; address = codes "0.0.0.0:3478" }
      ∷ [];
  max_concurrent_allocations = none;
  max_bandwidth_bytes_per_sec = none;
  max_allocation_duration_secs = none;
  stats_dump_interval_secs = 30;
  stats_dump_skip_if_no_change = true;
  server_name = default_server_name;
  stun_enabled = true;
  turn_enabled = true;
}

unfoldable pub default_config : Config
unfolding default_log
default_config = record {
  server = default_server;
  http = none;
  certificates = none;
  auth = record {
    users = [];
    api_keys = [];
    acl_rules =
        record { ip_range = codes "0.0.0.0/0"; action = codes "Allow"; priority = some 0 } ∷ [];
  };
  log = default_log;
}
