-- ===== src/Sds/Tests.antt =====
-- Runs of src/sds.rs, with the scenarios of its tests, and the theorems applied to them.
use miuturn.Common.{List, [], ◌∷◌, none, some, ◌≡◌, refl, Text, ℕ_discrete}
use miuturn.Common.Texts.{Text-discrete, codes}
use miuturn.Sds.Types.{
  Tried, got, failed, inline_string, ProtoAny, DiscoveryRequest, DiscoveryResponse, SdsCertificate,
  Host,
}
use miuturn.Sds.Subscription.{
  SdsSubscription, ads, secret_type_url, normalize_endpoint, configured_or_hostname,
  system_hostname, initial_sotw_request, ack_sotw_request,
}
use miuturn.Sds.Extract.{
  extract_certificate_from_secret, data_source_to_string, search_resources,
  try_extract_certificate_from_sotw_response,
}
use miuturn.Sds.Watch.{
  Stream, closed, message, Watched, watch_responses, watch_sotw_sds_certificates_once,
}
use miuturn.Sds.Selected.{Explains, search_resources_lem}
use miuturn.Sds.Acknowledged.{Accounted, watch_sotw_sds_certificates_once-Accounted}
use miuturn.Auth.Oauth.{after, strip_prefix}

program : Unit {0}
unfolding Text-discrete ℕ_discrete data_source_to_string extract_certificate_from_secret
    search_resources try_extract_certificate_from_sotw_response initial_sotw_request
    ack_sotw_request watch_responses watch_sotw_sds_certificates_once normalize_endpoint after
    strip_prefix configured_or_hostname system_hostname
program = tt

-- A secret is encoded by its name alone.
abbrev host : Host
host = record {
  decode_secret = λ bytes. got (record {
    name = bytes;
    tls_certificate = some (record {
      certificate_chain = some (some (inline_string (codes "cert")));
      private_key = some (some (inline_string (codes "key")));
    });
  });
  from_utf8 = λ bytes. got bytes;
  read = λ p. failed (codes "no such file");
  trim = λ s. s;
  hostname_variable = some (codes "box");
  etc_hostname = none;
}

adds_scheme : normalize_endpoint (codes "127.0.0.1:18000") ≡ codes "http://127.0.0.1:18000"
unfolding program
adds_scheme = refl

keeps_scheme : normalize_endpoint (codes "https://xds:443") ≡ codes "https://xds:443"
unfolding program
keeps_scheme = refl

prefers_configured : configured_or_hostname host (some (codes "node-a")) ≡ codes "node-a"
unfolding program
prefers_configured = refl

falls_back : configured_or_hostname host (some []) ≡ codes "box"
unfolding program
falls_back = refl

abbrev resources : List ProtoAny
resources =
    record { type_url = codes "other"; value = codes "turn" }
    ∷ record { type_url = secret_type_url; value = codes "web" }
    ∷ record { type_url = secret_type_url; value = codes "turn" }
    ∷ []

finds : search_resources host (codes "turn") resources ≡ got (some (codes "cert", codes "key"))
unfolding program
finds = refl

search_resources_lem_example :
    Explains host (codes "turn") resources (search_resources host (codes "turn") resources)
search_resources_lem_example = search_resources_lem host (codes "turn") resources

abbrev subscription : SdsSubscription
subscription = record {
  endpoint = codes "http://127.0.0.1:18000";
  api = ads;
  resource_name = codes "turn";
  node = record { id = codes "node-a"; cluster = [] };
  timeout = 10;
}

abbrev response : Text → DiscoveryResponse
response nonce = record {
  version_info = codes "1";
  resources = resources;
  type_url = secret_type_url;
  nonce = nonce;
}

-- The second response is not acknowledged: the request cannot be sent.
abbrev stream : Stream DiscoveryResponse
stream =
    message (response (codes "a")) (got tt)
      (message (response (codes "b")) (failed (codes "gone")) closed)

abbrev accepts : SdsCertificate → Tried (Unit {0})
accepts c = got tt

abbrev watched : Watched DiscoveryRequest
watched = watch_sotw_sds_certificates_once host subscription accepts (got stream)

sends_two :
    watched.requests
    ≡ initial_sotw_request subscription ∷ ack_sotw_request subscription (response (codes "a")) ∷ []
unfolding program
sends_two = refl

watch_sotw_sds_certificates_once-Accounted_example :
    let w = watched in
    (acks : List DiscoveryRequest) × (w.requests ≡ initial_sotw_request subscription ∷ acks)
    × Accounted
        (λ r. try_extract_certificate_from_sotw_response host r subscription.resource_name)
        (ack_sotw_request subscription)
        stream
        (record { requests = acks; updates = w.updates; ended = w.ended })
watch_sotw_sds_certificates_once-Accounted_example =
    watch_sotw_sds_certificates_once-Accounted host subscription accepts stream
