-- ===== src/Health/Routes.antt =====
-- src/health.rs: the routes, with the handlers that only read, and a request from its route to its
-- answer.
use miuturn.Common.{ℕ, List, ◌++◌, Option, none, some, Bool, true, false, map, Text}
use miuturn.Common.Texts.{codes}
use miuturn.Auth.Manager.{User, list_users}
use miuturn.Metrics.{metric, export_prometheus}
use miuturn.Health.State.{
  Web, Visit, Site, ServerStatsSnapshot, UserView, Answer, redirect, exported, health_status,
  reloaded, statistics, CookieChange, kept,
}
use miuturn.Health.Access.{
  admin_acl_middleware, with_session, login_handler, api_login_handler, logout_handler,
  console_handler, dashboard_handler,
}
use miuturn.Health.Edits.{
  AddUserRequest, UpdateUserRequest, AddAclRequest, UpdateAclRequest, add_user_handler,
  delete_user_handler, update_user_handler, add_acl_handler, delete_acl_handler, update_acl_handler,
}
use miuturn.Health.Urls.{ice_servers_handler, turn_credentials_handler}

abbrev pub view_of : User → UserView
view_of u = record {
  username = u.username;
  user_type = u.user_type;
  max_allocations = u.max_allocations;
  expires_at = u.expires_at;
  bandwidth_limit = u.bandwidth_limit;
  max_allocation_duration_secs = u.max_allocation_duration_secs;
  ip_whitelist = u.ip_whitelist;
}

unfoldable pub stats_json_handler : Site → Visit → Site × Answer
stats_json_handler site visit = with_session site visit (
  site,
  statistics site.auth.realm visit.stats (map view_of (list_users site.auth)) site.auth.acl_rules,
)

unfoldable pub reload_handler : Site → Visit → Site × Answer
reload_handler site visit = with_session site visit (site, reloaded visit.stats)

-- The counters of the server in place of the metrics.
abbrev pub export_stats : ServerStatsSnapshot → Text
export_stats stats =
    let counter = codes "counter" in
    metric (codes "turn_total_allocations") (codes "Total number of allocations created") counter
      stats.total_allocations
    ++ (metric (codes "turn_active_allocations") (codes "Current number of active allocations")
          (codes "gauge") stats.active_allocations
        ++ (metric (codes "turn_total_bytes_relayed") (codes "Total bytes relayed") counter
              stats.total_bytes_relayed
            ++ metric (codes "turn_total_messages") (codes "Total messages relayed") counter
                stats.total_messages))

unfoldable pub prometheus_metrics_handler : Site → Visit → Answer
unfolding export_prometheus
prometheus_metrics_handler site visit = elim site.app.metrics [
  | some metrics ↦ exported (export_prometheus metrics visit.now)
  | none ↦ exported (export_stats visit.stats)
]

abbrev pub root_handler : Answer
root_handler = redirect (codes "/console")

abbrev pub health_proxy_handler : Visit → Answer
health_proxy_handler visit = health_status visit.stats

-- The routes, each with what its handler reads of the request: forms, JSON bodies and queries.
pub data Request : Type 0 where
  get_root get_console get_dashboard get_stats post_reload post_logout get_metrics : Request
  get_health : Request
  post_login post_api_login : Text → Text → Request
  post_user : AddUserRequest → Request
  put_user : UpdateUserRequest → Request
  post_acl : AddAclRequest → Request
  put_acl : UpdateAclRequest → Request
  delete_user delete_acl : List (Text × Text) → Request
  post_turn_credentials get_iceservers : Text → Option ℕ → Request

abbrev pub with_cookies : Site → Answer × CookieChange → Site × Answer × CookieChange
with_cookies site (answer, change) = (site, answer, change)

abbrev pub plain : Site × Answer → Site × Answer × CookieChange
plain (site, answer) = (site, answer, kept)

module _ (web : Web) where
  -- The handler of the route.
  unfoldable pub handle : Site → Visit → Request → Site × Answer × CookieChange
  handle site visit get_root = (site, root_handler, kept)
  handle site visit get_console = (site, console_handler site visit, kept)
  handle site visit get_dashboard = (site, dashboard_handler site visit, kept)
  handle site visit get_stats = plain (stats_json_handler site visit)
  handle site visit post_reload = plain (reload_handler site visit)
  handle site visit post_logout = with_cookies site logout_handler
  handle site visit get_metrics = (site, prometheus_metrics_handler site visit, kept)
  handle site visit get_health = (site, health_proxy_handler visit, kept)
  handle site visit (post_login username password) =
      with_cookies site (login_handler site.app.admin username password)
  handle site visit (post_api_login username password) =
      with_cookies site (api_login_handler site.app.admin username password)
  handle site visit (post_user req) = plain (add_user_handler site visit req)
  handle site visit (put_user req) = plain (update_user_handler site visit req)
  handle site visit (post_acl req) = plain (add_acl_handler site visit req)
  handle site visit (put_acl req) = plain (update_acl_handler site visit req)
  handle site visit (delete_user params) = plain (delete_user_handler site visit params)
  handle site visit (delete_acl params) = plain (delete_acl_handler site visit params)
  handle site visit (post_turn_credentials username lifetime) =
      (site, turn_credentials_handler web site visit username lifetime, kept)
  handle site visit (get_iceservers username lifetime) =
      (site, ice_servers_handler web site visit username lifetime, kept)

  -- The routes without the access rules of the administration.
  abbrev pub is_public : Request → Bool
  is_public get_health = true
  is_public (post_turn_credentials username lifetime) = true
  is_public (get_iceservers username lifetime) = true
  is_public _ = false

  unfoldable pub serve : Site → Visit → Request → Site × Answer × CookieChange
  unfolding handle
  serve site visit req = elim (is_public req) [
    | true ↦ handle site visit req
    | false ↦ admin_acl_middleware web site visit (handle site visit req)
  ]
