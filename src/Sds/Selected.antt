-- ===== src/Sds/Selected.antt =====
-- src/sds.rs: which certificate a response gives.
use miuturn.Common.{
  List, [], ◌∷◌, ◌++◌, none, some, true, false, Bool, ◌≡◌, ◌≢◌, refl, ap, ◌⊎◌, inl, inr, All, Text,
  arith,
}
use miuturn.Common.Texts.{same_text}
use miuturn.Sds.Types.{Tried, got, failed, ◌>>=◌, ProtoAny, Secret, Host}
use miuturn.Sds.Subscription.{secret_type_url}
use miuturn.Sds.Extract.{Found, extract_certificate_from_secret, search_resources}

-- A resource of another type, or a secret with another name.
abbrev pub Skipped : Host → Text → ProtoAny → Type 0
Skipped host name r =
    (r.type_url ≢ secret_type_url)
    ⊎ ((secret : Secret) × (host.decode_secret r.value ≡ got secret) × (secret.name ≢ name))

-- A resource that is no secret, or not a certificate, although its type says so.
abbrev pub Fails : Host → Text → Text → ProtoAny → Type 0
Fails host name e r =
    (host.decode_secret r.value ≡ failed e)
    ⊎ ((secret : Secret) × (host.decode_secret r.value ≡ got secret)
        × (secret.name ≡ name)
        × (extract_certificate_from_secret host secret ≡ failed e))

abbrev pub Carries : Host → Text → Text × Text → ProtoAny → Type 0
Carries host name pems r =
    (secret : Secret) × (host.decode_secret r.value ≡ got secret)
    × (secret.name ≡ name)
    × (extract_certificate_from_secret host secret ≡ got pems)

-- The first resource that is not skipped is a secret and has the property.
abbrev pub AtFirst : Host → Text → List ProtoAny → (ProtoAny → Type 0) → Type 0
AtFirst host name rs P =
    (before : List ProtoAny) × (after : List ProtoAny) × (r : ProtoAny) × (rs ≡ before ++ r ∷ after)
    × All (Skipped host name) before
    × (r.type_url ≡ secret_type_url)
    × P r

abbrev pub Explains : Host → Text → List ProtoAny → Tried Found → Type 0
Explains host name rs (got none) = All (Skipped host name) rs
Explains host name rs (got (some pems)) = AtFirst host name rs (Carries host name pems)
Explains host name rs (failed e) = AtFirst host name rs (Fails host name e)

later :
    (host : Host) (name : Text) (r : ProtoAny) (rs : List ProtoAny) (result : Tried Found)
    → Skipped host name r
    → Explains host name rs result
    → Explains host name (r ∷ rs) result
later host name r rs (got none) skip rest = (skip, rest)
later host name r rs (got (some pems)) skip (before, after, s, e, skips, typed, carries) =
    (r ∷ before, after, s, ap (λ l. r ∷ l) e, (skip, skips), typed, carries)
later host name r rs (failed t) skip (before, after, s, e, skips, typed, fails) =
    (r ∷ before, after, s, ap (λ l. r ∷ l) e, (skip, skips), typed, fails)

from_pems :
    (host : Host) (name : Text) (r : ProtoAny) (rs : List ProtoAny) (secret : Secret)
    (pems : Tried (Text × Text))
    → r.type_url ≡ secret_type_url
    → host.decode_secret r.value ≡ got secret
    → secret.name ≡ name
    → extract_certificate_from_secret host secret ≡ pems
    → Explains host name (r ∷ rs) (pems >>= (λ p. got (some p)))
from_pems host name r rs secret (got p) typed decoded named e =
    ([], rs, r, refl, tt, typed, (secret, decoded, named, e))
from_pems host name r rs secret (failed t) typed decoded named e =
    ([], rs, r, refl, tt, typed, inr (secret, decoded, named, e))

by_name :
    (host : Host) (name : Text) (r : ProtoAny) (rs : List ProtoAny) (secret : Secret)
    (rest : Tried Found) (b : Bool)
    → r.type_url ≡ secret_type_url
    → host.decode_secret r.value ≡ got secret
    → Explains host name rs rest
    → same_text secret.name name ≡ b
    → Explains host name (r ∷ rs) (elim b [
      | false ↦ rest
      | true ↦ extract_certificate_from_secret host secret >>= (λ pems. got (some pems))
    ])
by_name host name r rs secret rest true typed decoded ih same =
    from_pems host name r rs secret (extract_certificate_from_secret host secret) typed decoded
      (ground arith) refl
by_name host name r rs secret rest false typed decoded ih other =
    later host name r rs rest (inr (secret, decoded, ground arith)) ih

from_secret :
    (host : Host) (name : Text) (r : ProtoAny) (rs : List ProtoAny) (d : Tried Secret)
    (rest : Tried Found)
    → r.type_url ≡ secret_type_url
    → host.decode_secret r.value ≡ d
    → Explains host name rs rest
    → Explains host name (r ∷ rs) (
        d >>= (λ secret. elim (same_text secret.name name) [
          | false ↦ rest
          | true ↦ extract_certificate_from_secret host secret >>= (λ pems. got (some pems))
        ]))
from_secret host name r rs (failed t) rest typed decoded ih =
    ([], rs, r, refl, tt, typed, inl decoded)
from_secret host name r rs (got secret) rest typed decoded ih =
    by_name host name r rs secret rest (same_text secret.name name) typed decoded ih refl

by_type :
    (host : Host) (name : Text) (r : ProtoAny) (rs : List ProtoAny) (rest decoded : Tried Found)
    (b : Bool)
    → Explains host name rs rest
    → (r.type_url ≡ secret_type_url → Explains host name (r ∷ rs) decoded)
    → same_text r.type_url secret_type_url ≡ b
    → Explains host name (r ∷ rs) (elim b [ false ↦ rest | true ↦ decoded ])
by_type host name r rs rest decoded true ih on_secret same = on_secret (ground arith)
by_type host name r rs rest decoded false ih on_secret other =
    later host name r rs rest (inl (ground arith)) ih

-- The loop over the resources gives the certificate of the first secret that has the name, or
-- nothing if there is none, or an error of the first resource that is neither to be skipped nor a
-- certificate.
pub search_resources_lem :
    (host : Host) (name : Text) (rs : List ProtoAny)
    → Explains host name rs (search_resources host name rs)
unfolding search_resources
search_resources_lem host name [] = tt
search_resources_lem host name (r ∷ rs) =
    let ih = search_resources_lem host name rs in
    by_type host name r rs (search_resources host name rs) _ (same_text r.type_url secret_type_url)
      ih
      (λ typed.
        from_secret host name r rs (host.decode_secret r.value) (search_resources host name rs)
          typed refl ih)
      refl
