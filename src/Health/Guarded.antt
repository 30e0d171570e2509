-- ===== src/Health/Guarded.antt =====
-- src/health.rs: who can change the users and the rules, and what an update does to a password.
use miuturn.Common.{
  ℕ, List, [], ◌∷◌, Option, none, some, Bool, true, ◌≡◌, ◌≢◌, refl, ap, ◌∙◌, ◌⊎◌, inl, inr, Text,
  arith, ℕ_discrete,
}
use miuturn.Common.Map.{lookup, lookup-insert_self}
use miuturn.Common.Texts.{Text-discrete, codes}
use miuturn.Auth.Manager.{User, AuthManager, add_user, remove_user, get_user_password}
use miuturn.Server.State.{TurnServer, get_password_for_user}
use miuturn.Config.Load.{allocations_or_ten}
use miuturn.Config.Save.{save_config}
use miuturn.Health.State.{
  AdminState, Web, Visit, Site, Answer, write_config, user_deleted, user_updated,
}
use miuturn.Health.Access.{
  check_auth, is_session, session_cookie, session_value, with_session, admin_acl_middleware,
}
use miuturn.Health.Edits.{
  UpdateUserRequest, updated_user, text_or_empty, edited, delete_user_handler, update_user_handler,
}
use miuturn.Health.Routes.{Request, put_user, delete_user, handle, serve, plain}
use miuturn.Health.Outcomes.{HasSession, FromAdmin, serve-Outcome}

-- No administrator is configured, or the cookie has the one value that the source names.
abbrev pub IsOpen : Site → Visit → Type 0
IsOpen site visit =
    (site.app.admin.admin_username ≡ none)
    ⊎ (lookup Text-discrete session_cookie visit.jar ≡ some session_value)

is_session_lem : (value : Option Text) → is_session value ≡ true → value ≡ some session_value
is_session_lem none h = absurd (ground arith)
is_session_lem (some value) h = ground arith

check_auth-IsOpen :
    (name value : Option Text)
    → elim name as (λ x. Bool) [ none ↦ true | some username ↦ is_session value ] ≡ true
    → (name ≡ none) ⊎ (value ≡ some session_value)
check_auth-IsOpen none value h = inl refl
check_auth-IsOpen (some username) value h = inr (is_session_lem value h)

check_auth-session :
    (jar : List (Text × Text)) (admin : AdminState)
    → lookup Text-discrete session_cookie jar ≡ some session_value
    → check_auth jar admin ≡ true
unfolding check_auth Text-discrete ℕ_discrete
check_auth-session jar admin cookie = open_to admin.admin_username
  where
    open_to :
        (name : Option Text)
        → elim name as (λ x. Bool) [
          | none ↦ true
          | some username ↦ is_session (lookup Text-discrete session_cookie jar)
        ]
          ≡ true
    open_to none = refl
    open_to (some username) = ap is_session cookie

-- A request that changes the users, the rules, the file or the state of the server comes from an
-- address that the rules for administrators admit, and has the session cookie, if an administrator
-- is configured.
pub serve-Admitted :
    (web : Web) (site : Site) (visit : Visit) (req : Request)
    → (serve web site visit req).0 ≢ site
    → FromAdmin web site visit × IsOpen site visit
unfolding check_auth
serve-Admitted web site visit req moved = elim (serve-Outcome web site visit req) [
  | inl same ↦ absurd (moved same)
  | inr (admin, (session, change)) ↦
      (admin, check_auth-IsOpen site.app.admin.admin_username _ session)
]

write_config-auth : (site : Site) (visit : Visit) → (write_config site visit).auth ≡ site.auth
unfolding write_config
write_config-auth site visit = kept_in site.app.config_path
  where
    kept_in :
        (path : Option Text)
        → (elim path as (λ x. Site) [
          | none ↦ site
          | some p ↦ record site { file = visit.written (save_config site.auth site.file) }
        ]).auth
          ≡ site.auth
    kept_in none = refl
    kept_in (some p) = refl

-- An edit by a client that is admitted is carried out.
edit_admitted :
    (web : Web) (site : Site) (visit : Visit) (m : AuthManager) (answer : Answer)
    → FromAdmin web site visit
    → HasSession site visit
    → (admin_acl_middleware web site visit
        (plain (with_session site visit (edited site visit m answer)))).0.auth
      ≡ m
unfolding admin_acl_middleware
edit_admitted web site visit m answer admin session =
    rw (admin, session, admin_acl_middleware, with_session)
      (write_config-auth (record site { auth = m }) visit)

-- Whatever the name and the password of the administrator are, a client that sends the session
-- cookie with the value that the source names, from an address that the rules for administrators
-- admit, deletes any user. It need not have logged in.
pub forged_session :
    (web : Web) (site : Site) (visit : Visit) (username : Text)
    → FromAdmin web site visit
    → lookup Text-discrete session_cookie visit.jar ≡ some session_value
    → (serve web site visit (delete_user ((codes "username", username) ∷ []))).0.auth
      ≡ remove_user site.auth username
unfolding serve handle delete_user_handler Text-discrete ℕ_discrete
forged_session web site visit username admin cookie =
    edit_admitted web site visit (remove_user site.auth username) user_deleted admin
      (check_auth-session visit.jar site.app.admin cookie)

get_user_password-add_user :
    (m : AuthManager) (u : User) (unix_secs : ℕ)
    → u.expires_at ≡ none
    → get_user_password (add_user m u) u.username unix_secs ≡ some u.password
unfolding get_user_password add_user
get_user_password-add_user m u unix_secs endless =
    rw (lookup-insert_self Text-discrete u.username u m.users, endless, get_user_password) refl

managed :
    (server : TurnServer) (m : AuthManager) (name password : Text) (unix_secs : ℕ)
    → get_user_password m name unix_secs ≡ some password
    → get_password_for_user (record server { auth_manager = some m }) name unix_secs ≡ some password
unfolding get_password_for_user
managed server m name password unix_secs h = rw (h, get_password_for_user) refl

-- After an update without a password by a client that is admitted, the password that the server
-- takes from the user is empty, if the update gives no end of the user's time.
pub update_empties_password :
    (web : Web) (site : Site) (visit : Visit) (req : UpdateUserRequest) (server : TurnServer)
    (unix_secs : ℕ)
    → FromAdmin web site visit
    → HasSession site visit
    → req.password ≡ none
    → req.expires_at ≡ none
    → get_password_for_user
        (record server { auth_manager = some (serve web site visit (put_user req)).0.auth })
        req.username
        unix_secs
      ≡ some []
unfolding serve handle update_user_handler get_password_for_user
update_empties_password web site visit req server unix_secs admin session blank endless =
    let u : User = updated_user visit.unix_secs req in
    let after =
      edit_admitted web site visit (add_user (remove_user site.auth req.username) u)
        (user_updated req.username req.user_type (allocations_or_ten req.max_allocations)) admin
        session in
    ap
      (λ (m : AuthManager).
        get_password_for_user (record server { auth_manager = some m }) req.username unix_secs)
      after
    ∙ managed server (add_user (remove_user site.auth req.username) u) req.username [] unix_secs (
        get_user_password-add_user (remove_user site.auth req.username) u unix_secs endless
        ∙ ap (λ (password : Option Text). some (text_or_empty password)) blank)
