-- ===== src/Health/Tests.antt =====
-- Runs of src/health.rs, and the theorems applied to them.
use miuturn.Common.{
  List, [], ◌∷◌, none, some, true, false, ◌≡◌, ◌≢◌, refl, ap, ◌⊎◌, length, arith, ℕ_discrete,
}
use miuturn.Common.Texts.{Text-discrete, codes}
use miuturn.Net.{v4}
use miuturn.Auth.Acl.{allow, ip_in_range}
use miuturn.Auth.Manager.{User, fixed, add_user, remove_user}
use miuturn.Server.State.{TurnServer, get_password_for_user}
use miuturn.Server.Start.{with_port_range_limits_bind_address_and_password}
use miuturn.Config.Types.{HttpConfig, default_config, default_http}
use miuturn.Config.Save.{save_config, config_of_user, config_of_rule}
use miuturn.Metrics.{new}
use miuturn.Health.State.{Web, Visit, Site, app_of_config, turn_rest_state, write_config}
use miuturn.Health.Access.{check_auth, admin_acl_middleware}
use miuturn.Health.Edits.{
  AddUserRequest, UpdateUserRequest, add_user_handler, update_user_handler, delete_user_handler,
}
use miuturn.Health.Routes.{Request, post_user, put_user, delete_user, get_health, handle, serve}
use miuturn.Health.Outcomes.{FromAdmin, HasSession, WellFormed}
use miuturn.Health.Saved.{run, HasNoKeys, IsSaved, run-IsSaved}
use miuturn.Health.Guarded.{IsOpen, serve-Admitted, forged_session, update_empties_password}

program : Unit {0}
unfolding app_of_config turn_rest_state default_config default_http new check_auth
    admin_acl_middleware ip_in_range Text-discrete ℕ_discrete add_user_handler update_user_handler
    delete_user_handler handle serve write_config save_config config_of_user config_of_rule add_user
    remove_user
program = tt

abbrev web : Web
web = record {
  trim = λ s. s;
  parse_socket_addr = λ s. some (v4 0 0 0 0 3478);
  hmac_sha1 = λ key s. [];
  hex = λ s. [];
}

abbrev http : HttpConfig
http = record default_http {
  admin_username = some (codes "root");
  admin_password = some (codes "hidden");
  turn_rest_enabled = some true;
}

abbrev guest : User
guest = record {
  username = codes "guest";
  password = codes "secret";
  user_type = fixed;
  created_at = 5;
  expires_at = none;
  max_allocations = 3;
  bandwidth_limit = none;
  ip_whitelist = none;
  max_allocation_duration_secs = none;
}

abbrev site : Site
site = record {
  app = app_of_config default_config http (new 0) (codes "miuturn.toml");
  auth = record {
    users = (codes "guest", guest) ∷ [];
    api_keys = [];
    acl_rules = record { ip_range = codes "10.0.0.1"; action = allow; priority = 2 } ∷ [];
    realm = codes "r";
  };
  file = some default_config;
}

-- A client that never logged in, with the cookie.
abbrev visit : Visit
visit = record {
  addr = codes "127.0.0.1";
  x_forwarded_for = none;
  x_real_ip = none;
  jar = (codes "admin_session", codes "authenticated") ∷ [];
  unix_secs = 9;
  now = 7;
  stats = record {
    total_allocations = 0;
    active_allocations = 0;
    total_bytes_relayed = 0;
    total_messages = 0;
  };
  written = λ c. some c;
}

abbrev new_user : AddUserRequest
new_user = record {
  username = codes "bob";
  password = codes "pw";
  user_type = codes "fixed";
  max_allocations = none;
  expires_at = none;
  bandwidth_limit = none;
  ip_whitelist = none;
  max_allocation_duration_secs = none;
}

abbrev without_password : UpdateUserRequest
without_password = record {
  username = codes "guest";
  password = none;
  user_type = codes "fixed";
  max_allocations = some 5;
  expires_at = none;
  bandwidth_limit = none;
  ip_whitelist = none;
  max_allocation_duration_secs = none;
}

from_admin : FromAdmin web site visit
unfolding program
from_admin = refl

has_session : HasSession site visit
unfolding program
has_session = refl

two_users : length (serve web site visit (post_user new_user)).0.auth.users ≡ 2
unfolding program
two_users = refl

moves : (serve web site visit (post_user new_user)).0 ≢ site
moves = λ e.
    let one : length (serve web site visit (post_user new_user)).0.auth.users ≡ 1 =
      ap (λ (s : Site). length s.auth.users) e in
    omega (arith, one, two_users)

serve-Admitted_example : FromAdmin web site visit × IsOpen site visit
serve-Admitted_example = serve-Admitted web site visit (post_user new_user) moves

forged_session_example :
    (serve web site visit (delete_user ((codes "username", codes "guest") ∷ []))).0.auth
    ≡ remove_user site.auth (codes "guest")
unfolding Text-discrete ℕ_discrete
forged_session_example = forged_session web site visit (codes "guest") from_admin refl

abbrev server : TurnServer
server =
    with_port_range_limits_bind_address_and_password (0, 0, 0, 0) (0, 0, 0, 0) (codes "r") 49152
      65535 none none (codes "password") false 0

update_empties_password_example :
    get_password_for_user
      (record server {
        auth_manager = some (serve web site visit (put_user without_password)).0.auth;
      })
      (codes "guest")
      10
    ≡ some []
update_empties_password_example =
    update_empties_password web site visit without_password server 10 from_admin has_session refl
      refl

formed : WellFormed site.auth
formed = record { sorted = (tt, tt); unique = (tt, tt); named = (refl, tt) }

no_keys : HasNoKeys site.file
unfolding default_config
no_keys = refl

here : site.app.config_path ≡ some (codes "miuturn.toml")
unfolding app_of_config
here = refl

abbrev requests : List (Visit × Request)
requests =
    (visit, get_health) ∷ (visit, post_user new_user) ∷ (visit, put_user without_password) ∷ []

run-IsSaved_example :
    (run web site requests ≡ site)
    ⊎ (WellFormed (run web site requests).auth × IsSaved (run web site requests))
run-IsSaved_example =
    run-IsSaved web (codes "miuturn.toml") site requests
      ((λ c. refl), ((λ c. refl), ((λ c. refl), tt))) here formed no_keys
