-- ===== src/Auth/Oauth.antt =====
-- src/oauth.rs: bearer tokens. `now` is the seconds since 1970. The decoding of base64 and of UTF-8,
-- the code of HMAC-SHA256 and the trimming of white space belong to libraries. A result none is the
-- panic of a slice that leaves the text or cuts a character.
use miuturn.Common.{
  ℕ, ◌-◌, ◌%◌, ◌^◌, List, [], ◌∷◌, ◌++◌, Option, none, some, Bool, true, false, not, ◌||◌, ltb, leb,
  ◌==◌, if◌then◌else◌, length, take, get_or, replicate, map, Text,
}
use miuturn.Common.Texts.{codes, split, parse_unsigned, same_text, is_empty}

pub record OAuthConfig : Type 0 where
  pub jwt_secret : Text
  pub issuer : Text
  pub audience : Text
  pub enabled : Bool

unfoldable pub new : Text → OAuthConfig
new jwt_secret = record { jwt_secret = jwt_secret; issuer = []; audience = []; enabled = true }

unfoldable pub with_issuer : OAuthConfig → Text → OAuthConfig
with_issuer config issuer = record config { issuer = issuer }

unfoldable pub with_audience : OAuthConfig → Text → OAuthConfig
with_audience config audience = record config { audience = audience }

pub record OAuthUserInfo : Type 0 where
  pub user_id : Text
  pub scopes : List Text
  pub expires_at : Option ℕ

pub record Libraries : Type 0 where
  pub decode_base64 : Text → Option (List ℕ)
  pub from_utf8 : List ℕ → Option Text
  pub hmac_sha256 : List ℕ → List ℕ → List ℕ
  pub trim : Text → Text

-- `strip_prefix`.
unfoldable pub strip_prefix : Text → Text → Option Text
strip_prefix [] s = some s
strip_prefix (c ∷ p) [] = none
strip_prefix (c ∷ p) (d ∷ s) = let rest = strip_prefix p s in if c == d then rest else none

unfoldable pub extract_bearer_token : Text → Option Text
unfolding strip_prefix
extract_bearer_token auth_header = strip_prefix (codes "Bearer ") auth_header

-- What follows the first occurrence of a text.
unfoldable pub after : Text → Text → Option Text
unfolding strip_prefix
after search [] = strip_prefix search []
after search (c ∷ s) =
    let later = after search s in
    elim (strip_prefix search (c ∷ s)) [ none ↦ later | some rest ↦ some rest ]

-- What stands before the first character that passes, if one does.
unfoldable pub up_to : (ℕ → Bool) → Text → Option Text
up_to p [] = none
up_to p (c ∷ s) =
    let later = up_to p s in
    if p c then some [] else elim later [ none ↦ none | some t ↦ some (c ∷ t) ]

-- A slice may end at the end of the text or in front of a byte that begins a character.
abbrev pub is_boundary : Text → ℕ → Bool
is_boundary s n =
    if ltb n (length s) then ltb (get_or s n 0) 128 || leb 192 (get_or s n 0) else n == length s

abbrev pub literal_end : Text → ℕ
literal_end rest = elim (strip_prefix (codes "true") rest) [ none ↦ 5 | some r ↦ 4 ]

module _ (lib : Libraries) where
  -- The value that begins a text: a string, a Boolean by its length, or what stands before a comma
  -- or a brace.
  unfoldable pub json_value : Text → Option (Option Text)
  unfolding strip_prefix up_to
  json_value [] = some none
  json_value (ch ∷ rest) =
      if ch == b'"'
      then some (up_to (λ c. c == b'"') rest)
      else if ch == b't' || ch == b'f'
      then (if is_boundary (ch ∷ rest) (literal_end (ch ∷ rest))
          then some (some (take (literal_end (ch ∷ rest)) (ch ∷ rest)))
          else none)
      else elim (up_to (λ c. c == b',' || c == b'}') (ch ∷ rest)) [
        | none ↦ some (some (lib.trim (ch ∷ rest)))
        | some number ↦ some (some (lib.trim number))
      ]

  unfoldable pub extract_json_field : Text → Text → Option (Option Text)
  unfolding after json_value
  extract_json_field json field = elim (after (b'"' ∷ field ++ (b'"' ∷ b':' ∷ [])) json) [
    | none ↦ some none
    | some rest ↦ json_value rest
  ]

  abbrev pub standard_char : ℕ → ℕ
  standard_char c = if c == b'-' then b'+' else if c == b'_' then b'/' else c

  -- Base64url without padding, turned into base64.
  unfoldable pub base64_decode : Text → Option (List ℕ)
  base64_decode input =
      lib.decode_base64 (map standard_char input ++ replicate ((4 - length input % 4) % 4) b'=')

  unfoldable pub compute_hmac_sha256 : Text → Text → List ℕ
  compute_hmac_sha256 message key = lib.hmac_sha256 key message

  -- An empty setting asks for nothing.
  abbrev pub matches : Text → Option Text → Bool
  matches wanted found =
      is_empty wanted || elim found [ none ↦ false | some s ↦ same_text s wanted ]

  abbrev pub payload_text : Text → Option Text
  payload_text payload = elim (base64_decode payload) [
    | none ↦ none
    | some bytes ↦ lib.from_utf8 bytes
  ]

  -- The last checks: the time, the issuer, the audience and the signature.
  abbrev pub check_claims :
      OAuthConfig → ℕ → Text → Text → Text → Text → ℕ → Option Text → Option Text → Option Text
  check_claims config now header payload signature user_id exp iss aud =
      if ltb exp now
      then none
      else if not (matches config.issuer iss)
      then none
      else if not (matches config.audience aud)
      then none
      else elim (base64_decode signature) [
        | none ↦ none
        | some provided ↦
            if same_text provided
              (compute_hmac_sha256 (header ++ (b'.' ∷ payload)) config.jwt_secret)
            then some user_id
            else none
      ]

  abbrev pub validate_json : OAuthConfig → ℕ → Text → Text → Text → Text → Option (Option Text)
  validate_json config now header payload signature json =
      elim (extract_json_field json (codes "sub")) [
        | none ↦ none
        | some none ↦ some none
        | some (some user_id) ↦ elim (extract_json_field json (codes "exp")) [
          | none ↦ none
          | some none ↦ some none
          | some (some exp_text) ↦ elim (parse_unsigned (2 ^ 64) exp_text) [
            | none ↦ some none
            | some exp ↦ elim (extract_json_field json (codes "iss")) [
              | none ↦ none
              | some iss ↦ elim (extract_json_field json (codes "aud")) [
                | none ↦ none
                | some aud ↦
                    some (check_claims config now header payload signature user_id exp iss aud)
              ]
            ]
          ]
        ]
      ]

  abbrev pub validate_parts : OAuthConfig → ℕ → List Text → Option (Option Text)
  validate_parts config now (header ∷ payload ∷ signature ∷ []) = elim (payload_text payload) [
    | none ↦ some none
    | some json ↦ validate_json config now header payload signature json
  ]
  validate_parts config now _ = some none

  unfoldable pub validate_token : OAuthConfig → Text → ℕ → Option (Option Text)
  unfolding base64_decode extract_json_field compute_hmac_sha256 split
  validate_token config token now =
      if not config.enabled then some none else validate_parts config now (split b'.' token)

  abbrev pub scopes_of : Option Text → List Text
  scopes_of none = []
  scopes_of (some s) = split b' ' s

  abbrev pub end_of : Option Text → Option ℕ
  end_of none = none
  end_of (some s) = parse_unsigned (2 ^ 64) s

  abbrev pub info_of_json : Text → Option (Option OAuthUserInfo)
  info_of_json json = elim (extract_json_field json (codes "sub")) [
    | none ↦ none
    | some none ↦ some none
    | some (some user_id) ↦ elim (extract_json_field json (codes "scope")) [
      | none ↦ none
      | some scope ↦ elim (extract_json_field json (codes "exp")) [
        | none ↦ none
        | some exp ↦
            some (
              some
                (record { user_id = user_id; scopes = scopes_of scope; expires_at = end_of exp }))
      ]
    ]
  ]

  abbrev pub info_of_parts : List Text → Option (Option OAuthUserInfo)
  info_of_parts (header ∷ payload ∷ signature ∷ []) = elim (payload_text payload) [
    | none ↦ some none
    | some json ↦ info_of_json json
  ]
  info_of_parts _ = some none

  -- What a token says, without a check of its end or its signature.
  unfoldable pub get_user_info : OAuthConfig → Text → Option (Option OAuthUserInfo)
  unfolding base64_decode extract_json_field split
  get_user_info config token =
      if not config.enabled then some none else info_of_parts (split b'.' token)
