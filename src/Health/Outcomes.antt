-- ===== src/Health/Outcomes.antt =====
-- src/health.rs: what any request does to the users, the rules and the file.
use miuturn.Common.{ℕ, [], ◌∷◌, ◌++◌, ◌≡◌, refl, true, Bool-cases, ◌⊎◌, inl, inr, All, Text}
use miuturn.Common.Map.{IsMap, insert-IsMap, remove-IsMap, All-insert, All-remove}
use miuturn.Common.Texts.{Text-discrete}
use miuturn.Auth.Acl.{AclRule}
use miuturn.Auth.Manager.{User, AuthManager, add_user, remove_user, add_acl_rule, remove_acl_rule}
use miuturn.Auth.Priority.{IsSorted, sort_rules-IsSorted, retain-IsSorted}
use miuturn.Health.State.{Web, Visit, Site, Answer, CookieChange, write_config}
use miuturn.Health.Access.{check_auth, with_session, client_ip, acl_admits, admin_acl_middleware}
use miuturn.Health.Edits.{
  edited, add_user_handler, delete_user_handler, update_user_handler, add_acl_handler,
  delete_acl_handler, update_acl_handler,
}
use miuturn.Health.Routes.{
  Request, get_root, get_console, get_dashboard, get_stats, post_reload, post_logout, get_metrics,
  get_health, post_login, post_api_login, post_user, put_user, post_acl, put_acl, delete_user,
  delete_acl, post_turn_credentials, get_iceservers, handle, serve, stats_json_handler,
  reload_handler,
}

-- The rules are in order of priority, no user is there twice, and each is kept under the own name.
pub record WellFormed (m : AuthManager) : Type 0 where
  pub sorted : IsSorted m.acl_rules
  pub unique : IsMap m.users
  pub named : All (λ e. e.0 ≡ (e.1).username) m.users

add_user-WellFormed : (m : AuthManager) (u : User) → WellFormed m → WellFormed (add_user m u)
unfolding add_user
add_user-WellFormed m u w = record {
  sorted = w.sorted;
  unique = insert-IsMap Text-discrete u.username u m.users w.unique;
  named = All-insert Text-discrete (λ e. e.0 ≡ (e.1).username) u.username u m.users refl w.named;
}

remove_user-WellFormed :
    (m : AuthManager) (name : Text) → WellFormed m → WellFormed (remove_user m name)
unfolding remove_user
remove_user-WellFormed m name w = record {
  sorted = w.sorted;
  unique = remove-IsMap Text-discrete name m.users w.unique;
  named = All-remove Text-discrete (λ e. e.0 ≡ (e.1).username) name m.users w.named;
}

add_acl_rule-WellFormed :
    (m : AuthManager) (rule : AclRule) → WellFormed m → WellFormed (add_acl_rule m rule)
unfolding add_acl_rule
add_acl_rule-WellFormed m rule w = record {
  sorted = sort_rules-IsSorted (m.acl_rules ++ rule ∷ []);
  unique = w.unique;
  named = w.named;
}

remove_acl_rule-WellFormed :
    (m : AuthManager) (ip_range : Text) (priority : ℕ)
    → WellFormed m
    → WellFormed (remove_acl_rule m ip_range priority)
unfolding remove_acl_rule
remove_acl_rule-WellFormed m ip_range priority w = record {
  sorted = retain-IsSorted _ m.acl_rules w.sorted;
  unique = w.unique;
  named = w.named;
}

abbrev pub HasSession : Site → Visit → Type 0
HasSession site visit = check_auth visit.jar site.app.admin ≡ true

abbrev pub FromAdmin : Web → Site → Visit → Type 0
FromAdmin web site visit = acl_admits (client_ip web site.app visit) site.app.admin_acl ≡ true

-- Nothing, or a change of the users and rules by a client with a session that is then written.
abbrev pub Changed : Site → Visit → Site → Type 0
Changed site visit site' =
    HasSession site visit
    × ((m : AuthManager) × (WellFormed site.auth → WellFormed m)
        × (site' ≡ write_config (record site { auth = m }) visit))

abbrev pub Outcome : Site → Visit → Site → Type 0
Outcome site visit site' = (site' ≡ site) ⊎ Changed site visit site'

with_session-Outcome :
    (site : Site) (visit : Visit) (m : AuthManager) (answer : Answer)
    → (WellFormed site.auth → WellFormed m)
    → Outcome site visit (with_session site visit (edited site visit m answer)).0
with_session-Outcome site visit m answer w =
    elim (Bool-cases (check_auth visit.jar site.app.admin)) [
      | inl h ↦ inr (h, (m, w, rw (h, with_session) refl))
      | inr h ↦ inl (rw (h, with_session) refl)
    ]

with_session_same :
    (site : Site) (visit : Visit) (answer : Answer)
    → (with_session site visit (site, answer)).0 ≡ site
with_session_same site visit answer = elim (Bool-cases (check_auth visit.jar site.app.admin)) [
  | inl h ↦ rw (h, with_session) refl
  | inr h ↦ rw (h, with_session) refl
]

handle-Outcome :
    (web : Web) (site : Site) (visit : Visit) (req : Request)
    → Outcome site visit (handle web site visit req).0
unfolding handle stats_json_handler reload_handler add_user_handler delete_user_handler
    update_user_handler add_acl_handler delete_acl_handler update_acl_handler
handle-Outcome web site visit get_root = inl refl
handle-Outcome web site visit get_console = inl refl
handle-Outcome web site visit get_dashboard = inl refl
handle-Outcome web site visit get_stats = inl (with_session_same site visit _)
handle-Outcome web site visit post_reload = inl (with_session_same site visit _)
handle-Outcome web site visit post_logout = inl refl
handle-Outcome web site visit get_metrics = inl refl
handle-Outcome web site visit get_health = inl refl
handle-Outcome web site visit (post_login username password) = inl refl
handle-Outcome web site visit (post_api_login username password) = inl refl
handle-Outcome web site visit (post_turn_credentials username lifetime) = inl refl
handle-Outcome web site visit (get_iceservers username lifetime) = inl refl
handle-Outcome web site visit (post_user req) =
    with_session-Outcome site visit _ _ (add_user-WellFormed site.auth _)
handle-Outcome web site visit (delete_user params) =
    with_session-Outcome site visit _ _ (remove_user-WellFormed site.auth _)
handle-Outcome web site visit (put_user req) =
    with_session-Outcome site visit _ _
      (λ w. add_user-WellFormed _ _ (remove_user-WellFormed site.auth req.username w))
handle-Outcome web site visit (post_acl req) =
    with_session-Outcome site visit _ _ (add_acl_rule-WellFormed site.auth _)
handle-Outcome web site visit (delete_acl params) =
    with_session-Outcome site visit _ _ (remove_acl_rule-WellFormed site.auth _ _)
handle-Outcome web site visit (put_acl req) = with_session-Outcome site visit _ _ (λ w.
    add_acl_rule-WellFormed _ _
      (remove_acl_rule-WellFormed site.auth req.original_ip_range req.original_priority w))

-- A request leaves everything as it is, or it comes from an address that may administer.
abbrev pub Allowed : Web → Site → Visit → Site → Type 0
Allowed web site visit site' = FromAdmin web site visit × Changed site visit site'

behind_acl :
    (web : Web) (site : Site) (visit : Visit) (answered : Site × Answer × CookieChange)
    → Outcome site visit answered.0
    → ((admin_acl_middleware web site visit answered).0 ≡ site)
      ⊎ Allowed web site visit (admin_acl_middleware web site visit answered).0
unfolding admin_acl_middleware
behind_acl web site visit answered o =
    elim (Bool-cases (acl_admits (client_ip web site.app visit) site.app.admin_acl)) [
      | inr h ↦ inl (rw (h, admin_acl_middleware) refl)
      | inl h ↦ elim o [
        | inl same ↦ inl (rw (h, admin_acl_middleware) same)
        | inr c ↦ inr (h, rw (h, admin_acl_middleware) c)
      ]
    ]

pub serve-Outcome :
    (web : Web) (site : Site) (visit : Visit) (req : Request)
    → ((serve web site visit req).0 ≡ site) ⊎ Allowed web site visit (serve web site visit req).0
unfolding serve
serve-Outcome web site visit get_health = unfold handle in inl refl
serve-Outcome web site visit (post_turn_credentials username lifetime) = unfold handle in inl refl
serve-Outcome web site visit (get_iceservers username lifetime) = unfold handle in inl refl
serve-Outcome web site visit req =
    behind_acl web site visit (handle web site visit req) (handle-Outcome web site visit req)
