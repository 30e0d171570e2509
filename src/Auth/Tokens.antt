-- ===== src/Auth/Tokens.antt =====
-- src/oauth.rs: which tokens are accepted.
use miuturn.Common.{
  ℕ, ◌^◌, ◌≤◌, ◌≡◌, ◌↔◌, refl, List, [], ◌∷◌, ◌++◌, Option, none, some, true, arith, Option-cases,
  Bool-cases, subst, inl, inr, ◌⊎◌, Text,
}
use miuturn.Common.Texts.{codes, split, parse_unsigned}
use miuturn.Auth.Oauth.{
  OAuthConfig, Libraries, validate_token, validate_parts, payload_text, base64_decode,
  extract_json_field, compute_hmac_sha256, matches, check_claims, validate_json,
}

module _ (lib : Libraries) (config : OAuthConfig) (token : Text) (now : ℕ) where
  -- A token of a user: three parts, a payload that names the user and an end that has not passed,
  -- the issuer and the audience that are configured, and the code of the first two parts.
  pub record IsValidToken (user_id : Text) : Type 0 where
    pub enabled : config.enabled ≡ true
    pub header : Text
    pub payload : Text
    pub signature : Text
    pub parts : split b'.' token ≡ header ∷ payload ∷ signature ∷ []
    pub json : Text
    pub decoded : payload_text lib payload ≡ some json
    pub names : extract_json_field lib json (codes "sub") ≡ some (some user_id)
    pub end_text : Text
    pub ends : extract_json_field lib json (codes "exp") ≡ some (some end_text)
    pub exp : ℕ
    pub end_time : parse_unsigned (2 ^ 64) end_text ≡ some exp
    pub alive : now ≤ exp
    pub iss : Option Text
    pub has_issuer : extract_json_field lib json (codes "iss") ≡ some iss
    pub issued : (config.issuer ≡ []) ⊎ (iss ≡ some config.issuer)
    pub aud : Option Text
    pub has_audience : extract_json_field lib json (codes "aud") ≡ some aud
    pub intended : (config.audience ≡ []) ⊎ (aud ≡ some config.audience)
    pub genuine :
        base64_decode lib signature
        ≡ some (compute_hmac_sha256 lib (header ++ (b'.' ∷ payload)) config.jwt_secret)

  matches_lem :
      (wanted : Text) (found : Option Text)
      → matches lib wanted found ≡ true
      → (wanted ≡ []) ⊎ (found ≡ some wanted)
  matches_lem [] found h = inl refl
  matches_lem (c ∷ s) none h = ground arith
  matches_lem (c ∷ s) (some t) h = ground arith

  three :
      (l : List Text)
      → ((header payload signature : Text) × (l ≡ header ∷ payload ∷ signature ∷ []))
        ⊎ (validate_parts lib config now l ≡ some none)
  three [] = inr refl
  three (a ∷ []) = inr refl
  three (a ∷ b ∷ []) = inr refl
  three (a ∷ b ∷ c ∷ []) = inl (a, b, c, refl)
  three (a ∷ b ∷ c ∷ d ∷ l) = inr refl

  accepts :
      (user_id : Text)
      → IsValidToken user_id
      → validate_token lib config token now ≡ some (some user_id)
  unfolding validate_token
  accepts user_id v = ground (
    arith, v.enabled, v.parts, v.decoded, v.names, v.ends, v.end_time, v.alive, v.has_issuer,
    v.issued, v.has_audience, v.intended, v.genuine,
  )

  -- What the last checks leave.
  checked :
      (user_id header payload signature json end_text : Text) (exp : ℕ) (iss aud : Option Text)
      → check_claims lib config now header payload signature user_id exp iss aud ≡ some user_id
      → (now ≤ exp)
        × (matches lib config.issuer iss ≡ true)
        × (matches lib config.audience aud ≡ true)
        × (base64_decode lib signature
            ≡ some (compute_hmac_sha256 lib (header ++ (b'.' ∷ payload)) config.jwt_secret))
  checked user_id header payload signature json end_text exp iss aud e = ground arith

  -- A field that is there, is missing, or makes the program panic.
  field_cases :
      (o : Option (Option Text))
      → ((o ≡ none) ⊎ (o ≡ some none)) ⊎ ((t : Text) × (o ≡ some (some t)))
  field_cases none = inl (inl refl)
  field_cases (some none) = inl (inr refl)
  field_cases (some (some t)) = inr (t, refl)

  module _ (user_id header payload signature json : Text) (on : config.enabled ≡ true)
      (parts : split b'.' token ≡ header ∷ payload ∷ signature ∷ [])
      (decoded : payload_text lib payload ≡ some json)
      (e : validate_json lib config now header payload signature json ≡ some (some user_id)) where
    with_user :
        (sub end_text : Text) (exp : ℕ) (iss aud : Option Text)
        → extract_json_field lib json (codes "sub") ≡ some (some sub)
        → extract_json_field lib json (codes "exp") ≡ some (some end_text)
        → parse_unsigned (2 ^ 64) end_text ≡ some exp
        → extract_json_field lib json (codes "iss") ≡ some iss
        → extract_json_field lib json (codes "aud") ≡ some aud
        → IsValidToken user_id
    with_user sub end_text exp iss aud hs he hx hi ha =
        let same : sub ≡ user_id = ground (arith, e, hs, he, hx, hi, ha) in
        let claims : check_claims lib config now header payload signature user_id exp iss aud
            ≡ some user_id =
          ground (arith, e, hs, he, hx, hi, ha) in
        let (alive, issued, intended, genuine) =
          checked user_id header payload signature json end_text exp iss aud claims in
        record {
          enabled = on;
          header = header;
          payload = payload;
          signature = signature;
          parts = parts;
          json = json;
          decoded = decoded;
          names = subst (λ u. extract_json_field lib json (codes "sub") ≡ some (some u)) same hs;
          end_text = end_text;
          ends = he;
          exp = exp;
          end_time = hx;
          alive = alive;
          iss = iss;
          has_issuer = hi;
          issued = matches_lem config.issuer iss issued;
          aud = aud;
          has_audience = ha;
          intended = matches_lem config.audience aud intended;
          genuine = genuine;
        }

    from_json : IsValidToken user_id
    from_json = elim (field_cases (extract_json_field lib json (codes "sub"))) [
      | inl missing ↦ absurd (ground (arith, e, missing))
      | inr (sub, hs) ↦ elim (field_cases (extract_json_field lib json (codes "exp"))) [
        | inl missing ↦ absurd (ground (arith, e, hs, missing))
        | inr (end_text, he) ↦ elim (Option-cases (parse_unsigned (2 ^ 64) end_text)) [
          | inl missing ↦ absurd (ground (arith, e, hs, he, missing))
          | inr (exp, hx) ↦ elim (Option-cases (extract_json_field lib json (codes "iss"))) [
            | inl missing ↦ absurd (ground (arith, e, hs, he, hx, missing))
            | inr (iss, hi) ↦ elim (Option-cases (extract_json_field lib json (codes "aud"))) [
              | inl missing ↦ absurd (ground (arith, e, hs, he, hx, hi, missing))
              | inr (aud, ha) ↦ with_user sub end_text exp iss aud hs he hx hi ha
            ]
          ]
        ]
      ]
    ]

  accepted_only :
      (user_id : Text)
      → validate_token lib config token now ≡ some (some user_id)
      → IsValidToken user_id
  unfolding validate_token
  accepted_only user_id e = elim (Bool-cases config.enabled) [
    | inr off ↦ absurd (ground (arith, e, off))
    | inl on ↦ elim (three (split b'.' token)) [
      | inr bad ↦ absurd (ground (arith, e, on, bad))
      | inl (header, payload, signature, parts) ↦ elim (Option-cases (payload_text lib payload)) [
        | inl bad ↦ absurd (ground (arith, e, on, parts, bad))
        | inr (json, decoded) ↦
            from_json user_id header payload signature json on parts decoded
              (ground (arith, e, on, parts, decoded))
      ]
    ]
  ]

  -- A token is accepted for a user exactly when it is valid for that user.
  pub validate_token-accepted :
      (user_id : Text)
      → (validate_token lib config token now ≡ some (some user_id)) ↔ IsValidToken user_id
  validate_token-accepted user_id = (accepted_only user_id, accepts user_id)
