-- ===== src/Auth.antt =====
-- src/auth.rs: users, API keys and access rules. src/short_term.rs: the credentials of the TURN
-- REST interface. src/oauth.rs: bearer tokens.
pub mod Manager
pub mod Acl
pub mod Priority
pub mod ShortTerm
pub mod Credentials
pub mod Oauth
pub mod Tokens
mod Tests
