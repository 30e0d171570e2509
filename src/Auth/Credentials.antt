-- ===== src/Auth/Credentials.antt =====
-- src/short_term.rs: what is generated is verified until it ends.
use miuturn.Common.{
  ℕ, ◌+◌, ◌%◌, ◌^◌, ◌<◌, ◌≡◌, refl, ap, List, [], ◌∷◌, ◌++◌, Option, some, false, ltb, arith, Text,
  if◌then◌else◌,
}
use miuturn.Common.Texts.{has_char, split, parse_unsigned, print, same_text}
use miuturn.Common.Decimal.{parse_unsigned-print, split_two, has_char-print}
use miuturn.Auth.ShortTerm.{
  ShortTermCredentialManager, generate, verify, parse_username, is_expired, compute_password,
  unwrap_or_default,
}

module _ (hmac_sha1 : List ℕ → List ℕ → List ℕ) (hex : List ℕ → Text)
    (manager : ShortTermCredentialManager) (user_id : Text) (life_time_secs : Option ℕ) (now : ℕ)
    (plain : has_char b':' user_id ≡ false)
    (fits : now + unwrap_or_default life_time_secs manager.default_lifetime_secs < 2 ^ 64) where
  abbrev pub end_time : ℕ
  end_time = now + unwrap_or_default life_time_secs manager.default_lifetime_secs

  made_name : Text
  made_name = print end_time ++ (b':' ∷ user_id)

  parts : split b':' made_name ≡ print end_time ∷ user_id ∷ []
  unfolding made_name
  parts = split_two b':' (print end_time) user_id (has_char-print b':' end_time (omega arith)) plain

  stamp : parse_unsigned (2 ^ 64) (print end_time) ≡ some end_time
  stamp = parse_unsigned-print (2 ^ 64) end_time fits

  generated :
      generate hmac_sha1 hex manager user_id life_time_secs now
      ≡ (made_name, compute_password hmac_sha1 hex manager made_name, end_time)
  unfolding generate made_name
  generated =
      let e : end_time % 2 ^ 64 ≡ end_time = omega arith in
      ap {B = Text × Text × ℕ}
        (λ (n : ℕ). (
          print n ++ (b':' ∷ user_id),
          compute_password hmac_sha1 hex manager (print n ++ (b':' ∷ user_id)),
          n,
        ))
        e

  parsed : parse_username made_name ≡ some (end_time, user_id)
  unfolding parse_username
  parsed = rw parts (ground (arith, stamp))

  verified :
      (password : Text) (later : ℕ)
      → verify hmac_sha1 hex manager made_name password later ≡ (
          if ltb end_time later
          then false
          else same_text (compute_password hmac_sha1 hex manager made_name) password)
  unfolding verify
  verified password later = rw parts (ground (arith, stamp))

  -- A user name that is generated for a user without a colon is taken apart into its end and the
  -- user, and its credentials are verified at any time up to that end, with no other password, and
  -- not after it. The end is a 64-bit number.
  pub verify-generate :
      (password : Text) (later : ℕ)
      → let (username, made, expires) = generate hmac_sha1 hex manager user_id life_time_secs now in
        (parse_username username ≡ some (end_time, user_id))
        × (expires ≡ end_time)
        × (is_expired username later ≡ ltb end_time later)
        × (verify hmac_sha1 hex manager username password later
            ≡ (if ltb end_time later then false else same_text made password))
  unfolding is_expired
  verify-generate password later =
      rw generated (parsed, refl, ground (arith, parsed), verified password later)
