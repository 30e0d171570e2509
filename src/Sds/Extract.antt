-- ===== src/Sds/Extract.antt =====
-- src/sds.rs: the certificate in a response.
use miuturn.Common.{
  List, [], ◌∷◌, ◌++◌, Option, none, some, Bool, true, false, ◌||◌, if◌then◌else◌, Text,
}
use miuturn.Common.Texts.{codes, same_text, is_empty}
use miuturn.Sds.Types.{
  Tried, got, failed, ◌>>=◌, ProtoAny, DiscoveryResponse, Resource, DeltaDiscoveryResponse,
  Specifier, inline_string, filename, inline_bytes, Secret, SdsCertificate, Host,
}
use miuturn.Sds.Subscription.{secret_type_url}

-- What the loops over the resources found: nothing, or the texts and the version of the resource.
abbrev pub Found : Type 0
Found = Option (Text × Text)

abbrev pub any_name : Text → List Text → Bool
any_name name [] = false
any_name name (n ∷ names) = same_text n name || any_name name names

module _ (host : Host) where
  unfoldable pub data_source_to_string : Option (Option Specifier) → Text → Tried Text
  data_source_to_string none field_name =
      failed (codes "SDS " ++ (field_name ++ codes " is missing"))
  data_source_to_string (some none) field_name =
      failed (codes "SDS " ++ (field_name ++ codes " has no data source specifier"))
  data_source_to_string (some (some (inline_string value))) field_name = got value
  data_source_to_string (some (some (inline_bytes value))) field_name = host.from_utf8 value
  data_source_to_string (some (some (filename p))) field_name = host.read p >>= host.from_utf8

  unfoldable pub extract_certificate_from_secret : Secret → Tried (Text × Text)
  unfolding data_source_to_string
  extract_certificate_from_secret secret = elim secret.tls_certificate [
    | none ↦ failed (codes "SDS secret \"" ++ (secret.name ++ codes "\" is not a TLS certificate"))
    | some tls ↦
        data_source_to_string tls.certificate_chain (codes "tls_certificate.certificate_chain")
        >>= (λ cert_chain.
            data_source_to_string tls.private_key (codes "tls_certificate.private_key")
            >>= (λ private_key. got (cert_chain, private_key)))
  ]

  -- The loop over the resources of a response.
  unfoldable pub search_resources : Text → List ProtoAny → Tried Found
  unfolding extract_certificate_from_secret
  search_resources resource_name [] = got none
  search_resources resource_name (resource ∷ resources) =
      let rest = search_resources resource_name resources in
      elim (same_text resource.type_url secret_type_url) [
        | false ↦ rest
        | true ↦ host.decode_secret resource.value >>= (λ secret.
            elim (same_text secret.name resource_name) [
              | false ↦ rest
              | true ↦ extract_certificate_from_secret secret >>= (λ pems. got (some pems))
            ])
      ]

  abbrev pub sotw_certificate : DiscoveryResponse → Found → Option SdsCertificate
  sotw_certificate response none = none
  sotw_certificate response (some (cert_pem, key_pem)) = some (record {
    cert_pem = cert_pem;
    key_pem = key_pem;
    version_info = response.version_info;
    nonce = response.nonce;
  })

  unfoldable pub try_extract_certificate_from_sotw_response :
      DiscoveryResponse → Text → Tried (Option SdsCertificate)
  unfolding search_resources
  try_extract_certificate_from_sotw_response response resource_name =
      elim (same_text response.type_url secret_type_url) [
        | false ↦ failed (
            codes "unexpected SDS DiscoveryResponse type_url \""
            ++ (response.type_url ++ codes "\""))
        | true ↦
            search_resources resource_name response.resources
            >>= (λ found. got (sotw_certificate response found))
      ]

  -- The version is that of the resource, if it has one.
  abbrev pub version_of : DeltaDiscoveryResponse → Resource → Text
  version_of response resource =
      if is_empty resource.version then response.system_version_info else resource.version

  unfoldable pub search_delta_resources :
      DeltaDiscoveryResponse → Text → List Resource → Tried (Option SdsCertificate)
  unfolding extract_certificate_from_secret
  search_delta_resources response resource_name [] = got none
  search_delta_resources response resource_name (resource ∷ resources) =
      let rest = search_delta_resources response resource_name resources in
      elim resource.resource [
        | none ↦ rest
        | some payload ↦ elim (same_text payload.type_url secret_type_url) [
          | false ↦ rest
          | true ↦ host.decode_secret payload.value >>= (λ secret.
              elim (same_text resource.name resource_name || same_text secret.name resource_name) [
                | false ↦ rest
                | true ↦ extract_certificate_from_secret secret >>= (λ pems. got (
                    some (record {
                      cert_pem = pems.0;
                      key_pem = pems.1;
                      version_info = version_of response resource;
                      nonce = response.nonce;
                    })))
              ])
        ]
      ]

  unfoldable pub try_extract_certificate_from_delta_response :
      DeltaDiscoveryResponse → Text → Tried (Option SdsCertificate)
  unfolding search_delta_resources
  try_extract_certificate_from_delta_response response resource_name =
      elim (same_text response.type_url secret_type_url) [
        | false ↦ failed (
            codes "unexpected Delta SDS DiscoveryResponse type_url \""
            ++ (response.type_url ++ codes "\""))
        | true ↦ elim (any_name resource_name response.removed_resources) [
          | true ↦ got none
          | false ↦ search_delta_resources response resource_name response.resources
        ]
      ]
