-- ===== src/Auth/Tests.antt =====
-- Runs of src/auth.rs, src/short_term.rs and src/oauth.rs, and the theorems applied to them.
use miuturn.Common.{
  ℕ, ◌≡◌, ◌↔◌, refl, List, [], ◌∷◌, ◌++◌, none, some, true, false, arith, ltb, replicate,
  if◌then◌else◌, ℕ_discrete, Text,
}
use miuturn.Common.Texts.{codes, same_text, Text-discrete, parse_unsigned}
use miuturn.Auth.Acl.{AclRule, allow, deny}
use miuturn.Auth.Manager.{new, check_acl, add_acl_rule}
use miuturn.Auth.Priority.{Call, add, run, step, Decided, run-Decided}
use miuturn.Auth.ShortTerm.{
  ShortTermCredentialManager, generate, verify, parse_username, is_expired,
}
use miuturn.Auth.Credentials.{verify-generate}
use miuturn.Auth.Oauth.{OAuthConfig, Libraries, validate_token, extract_bearer_token}
use miuturn.Auth.Tokens.{IsValidToken, validate_token-accepted}

abbrev deny_ten : AclRule
deny_ten = record { ip_range = codes "10.0.0.0/8"; action = deny; priority = 1 }

abbrev allow_one : AclRule
allow_one = record { ip_range = codes "10.0.0.1"; action = allow; priority = 2 }

abbrev calls : List Call
calls = add deny_ten ∷ add allow_one ∷ []

one_allowed : check_acl (run (new (codes "r")) calls) (codes "10.0.0.1") ≡ true
unfolding check_acl run step add_acl_rule new Text-discrete ℕ_discrete
one_allowed = refl

two_denied : check_acl (run (new (codes "r")) calls) (codes "10.0.0.2") ≡ false
unfolding check_acl run step add_acl_rule new Text-discrete ℕ_discrete
two_denied = refl

run-Decided_example :
    let short_term = run (new (codes "r")) calls in
    Decided (codes "10.0.0.1") short_term.acl_rules (check_acl short_term (codes "10.0.0.1"))
run-Decided_example = run-Decided (codes "r") calls (codes "10.0.0.1")

-- A code of zeros and an empty print of it.
abbrev short_term : ShortTermCredentialManager
short_term = record { secret_key = codes "key"; default_lifetime_secs = 3600 }

abbrev zeros : List ℕ → List ℕ → List ℕ
zeros key message = replicate 2 0

abbrev hex : List ℕ → Text
hex bytes = codes "0000"

made_name : (generate zeros hex short_term (codes "u") (some 60) 1000).0 ≡ codes "1060:u"
unfolding generate
made_name = refl

verify-generate_example :
    let (username, made, expires) = generate zeros hex short_term (codes "u") (some 60) 1000 in
    (parse_username username ≡ some (1060, codes "u"))
    × (expires ≡ 1060)
    × (is_expired username 1061 ≡ ltb 1060 1061)
    × (verify zeros hex short_term username (codes "0000") 1061
        ≡ (if ltb 1060 1061 then false else same_text made (codes "0000")))
verify-generate_example =
    verify-generate zeros hex short_term (codes "u") (some 60) 1000 refl (omega arith)
      (codes "0000") 1061

-- Base64 as the text itself.
abbrev lib : Libraries
lib = record {
  decode_base64 = λ s. some s;
  from_utf8 = λ s. some s;
  hmac_sha256 = λ key message. codes "0000";
  trim = λ s. s;
}

abbrev oauth : OAuthConfig
oauth = record { jwt_secret = codes "k"; issuer = []; audience = []; enabled = true }

abbrev token : Text
token =
    codes "aaaa."
    ++ (b'{' ∷ b'"' ∷ codes "sub"
        ++ (b'"' ∷ b':' ∷ b'"' ∷ b'u' ∷ b'"' ∷ b',' ∷ b'"' ∷ codes "exp"
            ++ (b'"' ∷ b':' ∷ b'9' ∷ b'9' ∷ b'}' ∷ codes ".0000")))

token_passes : validate_token lib oauth token 50 ≡ some (some (codes "u"))
unfolding validate_token parse_unsigned Text-discrete ℕ_discrete
token_passes = refl

token_ended : validate_token lib oauth token 100 ≡ some none
unfolding validate_token parse_unsigned Text-discrete ℕ_discrete
token_ended = refl

bearer : extract_bearer_token (codes "Bearer abc") ≡ some (codes "abc")
unfolding extract_bearer_token
bearer = refl

validate_token-accepted_example :
    (validate_token lib oauth token 50 ≡ some (some (codes "u")))
    ↔ IsValidToken lib oauth token 50 (codes "u")
validate_token-accepted_example = validate_token-accepted lib oauth token 50 (codes "u")
