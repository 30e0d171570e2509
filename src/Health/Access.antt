-- ===== src/Health/Access.antt =====
-- src/health.rs: who may use the administration: the session cookie, the access rules, login and
-- logout.
use miuturn.Common.{List, [], ◌∷◌, Option, none, some, Bool, true, false, ◌&&◌, ◌||◌, Text}
use miuturn.Common.Map.{lookup}
use miuturn.Common.Texts.{Text-discrete, codes, same_text, split}
use miuturn.Auth.Acl.{ip_in_range}
use miuturn.Health.State.{
  AdminState, AppState, Site, Web, Visit, Answer, redirect, forbidden, unauthorized, logged_in,
  invalid_credentials, login_page, admin_page, redirecting_page, CookieChange, kept,
  session_removed, session_set,
}

abbrev pub session_cookie : Text
session_cookie = codes "admin_session"

abbrev pub session_value : Text
session_value = codes "authenticated"

abbrev pub is_session : Option Text → Bool
is_session none = false
is_session (some value) = same_text value session_value

unfoldable pub check_auth : List (Text × Text) → AdminState → Bool
check_auth jar admin = elim admin.admin_username [
  | none ↦ true
  | some username ↦ is_session (lookup Text-discrete session_cookie jar)
]

-- What stands before the first comma.
abbrev pub first_part : List Text → Text
first_part [] = []
first_part (part ∷ parts) = part

abbrev pub any_range : Text → List Text → Bool
any_range ip [] = false
any_range ip (range ∷ ranges) = ip_in_range ip range || any_range ip ranges

abbrev pub acl_admits : Text → List Text → Bool
acl_admits ip [] = true
acl_admits ip (range ∷ ranges) = any_range ip (range ∷ ranges)

module _ (web : Web) where
  abbrev pub header_ip : Visit → Text
  header_ip visit = elim visit.x_forwarded_for [
    | some s ↦ web.trim (first_part (split b',' s))
    | none ↦ elim visit.x_real_ip [ some s ↦ web.trim s | none ↦ visit.addr ]
  ]

  abbrev pub client_ip : AppState → Visit → Text
  client_ip app visit = elim app.trust_proxy [ true ↦ header_ip visit | false ↦ visit.addr ]

  unfoldable pub admin_acl_middleware :
      Site → Visit → Site × Answer × CookieChange → Site × Answer × CookieChange
  admin_acl_middleware site visit answered =
      elim (acl_admits (client_ip site.app visit) site.app.admin_acl) [
        | true ↦ answered
        | false ↦ (site, forbidden, kept)
      ]

-- How each handler that needs a session begins.
abbrev pub with_session : Site → Visit → Site × Answer → Site × Answer
with_session site visit answered = elim (check_auth visit.jar site.app.admin) [
  | true ↦ answered
  | false ↦ (site, unauthorized)
]

abbrev pub credentials_match : AdminState → Text → Text → Bool
credentials_match admin username password = elim admin.admin_username [
  | none ↦ false
  | some name ↦ elim admin.admin_password [
    | none ↦ false
    | some secret ↦ same_text username name && same_text password secret
  ]
]

unfoldable pub login_handler : AdminState → Text → Text → Answer × CookieChange
login_handler admin username password = elim (credentials_match admin username password) [
  | true ↦ (redirect (codes "/console/dashboard"), session_set session_cookie session_value)
  | false ↦ (redirect (codes "/console?error=1"), kept)
]

unfoldable pub api_login_handler : AdminState → Text → Text → Answer × CookieChange
api_login_handler admin username password = elim (credentials_match admin username password) [
  | true ↦ (logged_in, session_set session_cookie session_value)
  | false ↦ (invalid_credentials, kept)
]

unfoldable pub logout_handler : Answer × CookieChange
logout_handler = (redirect (codes "/console"), session_removed)

unfoldable pub console_handler : Site → Visit → Answer
console_handler site visit = elim (check_auth visit.jar site.app.admin) [
  | true ↦ redirect (codes "/console/dashboard")
  | false ↦ elim site.app.admin.admin_username [ none ↦ admin_page | some name ↦ login_page ]
]

unfoldable pub dashboard_handler : Site → Visit → Answer
dashboard_handler site visit = elim (check_auth visit.jar site.app.admin) [
  | true ↦ admin_page
  | false ↦ redirecting_page
]
