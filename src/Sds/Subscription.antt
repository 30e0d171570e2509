-- ===== src/Sds/Subscription.antt =====
-- src/sds.rs: what is subscribed, and the requests.
use miuturn.Common.{ℕ, [], ◌∷◌, ◌++◌, Option, none, some, Bool, true, false, if◌then◌else◌, Text}
use miuturn.Common.Texts.{codes, same_text, is_empty}
use miuturn.Auth.Oauth.{after}
use miuturn.Config.Types.{CertificateConfig}
use miuturn.Sds.Types.{
  Tried, got, failed, ◌>>=◌, Node, DiscoveryRequest, DiscoveryResponse, DeltaDiscoveryRequest,
  DeltaDiscoveryResponse, Host,
}

abbrev pub secret_type_url : Text
secret_type_url = codes "type.googleapis.com/envoy.extensions.transport_sockets.tls.v3.Secret"

pub data XdsStreamApi : Type 0 where
  ads sds delta_ads delta_sds : XdsStreamApi

abbrev pub text_or : Text → Option Text → Text
text_or default none = default
text_or default (some s) = s

abbrev pub number_or : ℕ → Option ℕ → ℕ
number_or default none = default
number_or default (some n) = n

abbrev pub unsupported : Text → Text
unsupported other =
    codes "unsupported certificates.sds_api \""
    ++ (other ++ codes "\"; expected \"ads\", \"sds\", \"delta_ads\", or \"delta_sds\"")

unfoldable pub api_from_config : CertificateConfig → Tried XdsStreamApi
api_from_config config =
    let api = text_or (codes "ads") config.sds_api in
    if same_text api (codes "ads")
    then got ads
    else if same_text api (codes "sds")
    then got sds
    else if same_text api (codes "delta_ads")
    then got delta_ads
    else if same_text api (codes "delta_sds")
    then got delta_sds
    else failed (unsupported api)

unfoldable pub path : XdsStreamApi → Text
path ads = codes "/envoy.service.discovery.v3.AggregatedDiscoveryService/StreamAggregatedResources"
path sds = codes "/envoy.service.secret.v3.SecretDiscoveryService/StreamSecrets"
path delta_ads =
    codes "/envoy.service.discovery.v3.AggregatedDiscoveryService/DeltaAggregatedResources"
path delta_sds = codes "/envoy.service.secret.v3.SecretDiscoveryService/DeltaSecrets"

unfoldable pub api_as_str : XdsStreamApi → Text
api_as_str ads = codes "ads"
api_as_str sds = codes "sds"
api_as_str delta_ads = codes "delta_ads"
api_as_str delta_sds = codes "delta_sds"

unfoldable pub is_delta : XdsStreamApi → Bool
is_delta ads = false
is_delta sds = false
is_delta delta_ads = true
is_delta delta_sds = true

unfoldable pub normalize_endpoint : Text → Text
unfolding after
normalize_endpoint address = elim (after (codes "://") address) [
  | some rest ↦ address
  | none ↦ codes "http://" ++ address
]

-- A text that is not empty after it is trimmed.
abbrev pub trimmed : (Text → Text) → Option Text → Option Text
trimmed trim none = none
trimmed trim (some s) = if is_empty (trim s) then none else some (trim s)

abbrev pub or_else : Option Text → Option Text → Option Text
or_else none second = second
or_else (some s) second = some s

unfoldable pub system_hostname : Host → Option Text
system_hostname host =
    or_else (trimmed host.trim host.hostname_variable) (trimmed host.trim host.etc_hostname)

unfoldable pub configured_or_hostname : Host → Option Text → Text
unfolding system_hostname
configured_or_hostname host configured =
    text_or (codes "miuturn") (or_else (trimmed host.trim configured) (system_hostname host))

-- The timeout is in seconds.
pub record SdsSubscription : Type 0 where
  pub endpoint : Text
  pub api : XdsStreamApi
  pub resource_name : Text
  pub node : Node
  pub timeout : ℕ

abbrev pub ok_or : Text → Option Text → Tried Text
ok_or message none = failed message
ok_or message (some s) = got s

unfoldable pub subscription_from_config : Host → CertificateConfig → Tried SdsSubscription
unfolding api_from_config normalize_endpoint configured_or_hostname
subscription_from_config host config =
    ok_or (codes "certificates.sds_address is required for source=\"sds\"") config.sds_address
    >>= (λ address.
        ok_or (codes "certificates.sds_resource_name is required for source=\"sds\"")
          config.sds_resource_name
        >>= (λ resource_name. api_from_config config >>= (λ api. got (record {
          endpoint = normalize_endpoint address;
          api = api;
          resource_name = resource_name;
          node = record {
            id = configured_or_hostname host config.sds_node_id;
            cluster = text_or [] config.sds_cluster;
          };
          timeout = number_or 10 config.sds_timeout_secs;
        }))))

unfoldable pub initial_sotw_request : SdsSubscription → DiscoveryRequest
initial_sotw_request s = record {
  version_info = [];
  node = some s.node;
  resource_names = s.resource_name ∷ [];
  type_url = secret_type_url;
  response_nonce = [];
}

unfoldable pub ack_sotw_request : SdsSubscription → DiscoveryResponse → DiscoveryRequest
ack_sotw_request s response = record {
  version_info = response.version_info;
  node = some s.node;
  resource_names = s.resource_name ∷ [];
  type_url = secret_type_url;
  response_nonce = response.nonce;
}

unfoldable pub initial_delta_request : SdsSubscription → DeltaDiscoveryRequest
initial_delta_request s = record {
  node = some s.node;
  type_url = secret_type_url;
  resource_names_subscribe = s.resource_name ∷ [];
  resource_names_unsubscribe = [];
  initial_resource_versions = [];
  response_nonce = [];
}

unfoldable pub ack_delta_request : SdsSubscription → DeltaDiscoveryResponse → DeltaDiscoveryRequest
ack_delta_request s response = record {
  node = some s.node;
  type_url = secret_type_url;
  resource_names_subscribe = [];
  resource_names_unsubscribe = [];
  initial_resource_versions = [];
  response_nonce = response.nonce;
}
