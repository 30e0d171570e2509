-- ===== src/Auth/ShortTerm.antt =====
-- src/short_term.rs: credentials that carry the time of their end. `now` is the seconds since 1970.
use miuturn.Common.{
  ℕ, ◌+◌, ◌%◌, ◌^◌, List, [], ◌∷◌, ◌++◌, Option, none, some, Bool, true, false, ltb, Text,
}
use miuturn.Common.Texts.{split, parse_unsigned, print, same_text}

pub record ShortTermCredentialManager : Type 0 where
  pub secret_key : List ℕ
  pub default_lifetime_secs : ℕ

unfoldable pub new : Text → ShortTermCredentialManager
new secret_key = record { secret_key = secret_key; default_lifetime_secs = 3600 }

unfoldable pub with_lifetime : ShortTermCredentialManager → ℕ → ShortTermCredentialManager
with_lifetime manager lifetime_secs = record manager { default_lifetime_secs = lifetime_secs }

abbrev pub unwrap_or_default : Option ℕ → ℕ → ℕ
unwrap_or_default none d = d
unwrap_or_default (some n) d = n

-- The two parts of a user name, the first read as a `u64`.
abbrev pub in_two : List Text → Option (ℕ × Text)
in_two (stamp ∷ user_id ∷ []) = elim (parse_unsigned (2 ^ 64) stamp) [
  | none ↦ none
  | some timestamp ↦ some (timestamp, user_id)
]
in_two _ = none

unfoldable pub parse_username : Text → Option (ℕ × Text)
unfolding split parse_unsigned
parse_username username = in_two (split b':' username)

unfoldable pub is_expired : Text → ℕ → Bool
unfolding parse_username
is_expired username now = elim (parse_username username) [
  | none ↦ true
  | some (timestamp, user_id) ↦ ltb timestamp now
]

-- `hmac_sha1 key message` and the printing in hexadecimal digits are those of other libraries.
module _ (hmac_sha1 : List ℕ → List ℕ → List ℕ) (hex : List ℕ → Text) where
  unfoldable pub compute_password : ShortTermCredentialManager → Text → Text
  compute_password manager username = hex (hmac_sha1 manager.secret_key username)

  -- The user name, the password and the time of the end. The sum of seconds wraps.
  unfoldable pub generate : ShortTermCredentialManager → Text → Option ℕ → ℕ → Text × Text × ℕ
  unfolding compute_password print
  generate manager user_id life_time_secs now =
      let timestamp : ℕ =
        (now + unwrap_or_default life_time_secs manager.default_lifetime_secs) % 2 ^ 64 in
      let username : Text = print timestamp ++ (b':' ∷ user_id) in
      (username, compute_password manager username, timestamp)

  abbrev pub verify_parts : ShortTermCredentialManager → Text → Text → ℕ → List Text → Bool
  verify_parts manager username password now (stamp ∷ user_id ∷ []) =
      elim (parse_unsigned (2 ^ 64) stamp) [
        | none ↦ false
        | some timestamp ↦ elim (ltb timestamp now) [
          | true ↦ false
          | false ↦ same_text (compute_password manager username) password
        ]
      ]
  verify_parts manager username password now _ = false

  unfoldable pub verify : ShortTermCredentialManager → Text → Text → ℕ → Bool
  unfolding compute_password split parse_unsigned
  verify manager username password now =
      verify_parts manager username password now (split b':' username)
