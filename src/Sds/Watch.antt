-- ===== src/Sds/Watch.antt =====
-- src/sds.rs: fetching a certificate once, and watching for new ones. What arrives on a stream is an
-- argument: responses, each with the outcome of sending the request that follows it.
use miuturn.Common.{List, [], ◌∷◌, ◌++◌, Option, none, some, true, false, Text}
use miuturn.Common.Texts.{codes, print}
use miuturn.Config.Types.{CertificateConfig}
use miuturn.Sds.Types.{
  Tried, got, failed, ◌>>=◌, DiscoveryRequest, DiscoveryResponse, DeltaDiscoveryRequest,
  DeltaDiscoveryResponse, SdsCertificate, Host,
}
use miuturn.Sds.Subscription.{
  SdsSubscription, subscription_from_config, is_delta, initial_sotw_request, ack_sotw_request,
  initial_delta_request, ack_delta_request,
}
use miuturn.Sds.Extract.{
  try_extract_certificate_from_sotw_response, try_extract_certificate_from_delta_response,
}

-- The rest of a stream: its end, nothing more for as long as anyone waits, an error, or a response.
pub data Stream (R : Type 0) : Type 0 where
  closed silent : Stream R
  broken : Text → Stream R
  message : R → Tried (Unit {0}) → Stream R → Stream R

-- The requests that were sent, the certificates that were passed on, and how it ended, if it did.
pub record Watched (Q : Type 0) : Type 0 where
  pub requests : List Q
  pub updates : List SdsCertificate
  pub ended : Option Text

module _ {R Q : Type 0} (ack : R → Q) where
  -- What a watch does with a response, given what it does with the rest of the stream.
  abbrev pub after_response :
      (SdsCertificate → Tried (Unit {0}))
      → Watched Q
      → R
      → Tried (Unit {0})
      → Tried (Option SdsCertificate)
      → Watched Q
  after_response on_update after r sent (failed e) = record {
    requests = [];
    updates = [];
    ended = some e;
  }
  after_response on_update after r sent (got none) = elim sent [
    | failed e ↦ record { requests = []; updates = []; ended = some e }
    | got u ↦ record after { requests = ack r ∷ after.requests }
  ]
  after_response on_update after r sent (got (some certificate)) = elim (on_update certificate) [
    | failed e ↦ record { requests = []; updates = certificate ∷ []; ended = some e }
    | got v ↦ elim sent [
      | failed e ↦ record { requests = []; updates = certificate ∷ []; ended = some e }
      | got u ↦ record {
        requests = ack r ∷ after.requests;
        updates = certificate ∷ after.updates;
        ended = after.ended;
      }
    ]
  ]

module _ {R Q : Type 0} (extract : R → Tried (Option SdsCertificate)) (ack : R → Q)
    (closed_text : Text) where
  -- The loop `wait_for_certificate`: what it sends and its result, if it has one.
  unfoldable pub wait_for_certificate : Stream R → List Q × Option (Tried SdsCertificate)
  wait_for_certificate closed = ([], some (failed closed_text))
  wait_for_certificate silent = ([], none)
  wait_for_certificate (broken e) = ([], some (failed e))
  wait_for_certificate (message r sent rest) =
      let (acks, result) = wait_for_certificate rest in
      elim (extract r) [
        | failed e ↦ ([], some (failed e))
        | got (some certificate) ↦ ([], some (got certificate))
        | got none ↦ elim sent [ failed e ↦ ([], some (failed e)) | got u ↦ (ack r ∷ acks, result) ]
      ]

  -- The loop of a watch.
  unfoldable pub watch_responses : (SdsCertificate → Tried (Unit {0})) → Stream R → Watched Q
  watch_responses on_update closed = record {
    requests = [];
    updates = [];
    ended = some closed_text;
  }
  watch_responses on_update silent = record { requests = []; updates = []; ended = none }
  watch_responses on_update (broken e) = record { requests = []; updates = []; ended = some e }
  watch_responses on_update (message r sent rest) =
      after_response ack on_update (watch_responses on_update rest) r sent (extract r)

-- A wait without a result ends with the timeout.
abbrev pub timed : Text → SdsSubscription → Option (Tried SdsCertificate) → Tried SdsCertificate
timed what s (some result) = result
timed what s none =
    failed
      (codes "timed out after " ++ (print s.timeout ++ (what ++ (s.resource_name ++ codes "\""))))

module _ (host : Host) where
  unfoldable pub fetch_sotw_sds_certificate_update :
      SdsSubscription
      → Tried (Stream DiscoveryResponse)
      → List DiscoveryRequest × Tried SdsCertificate
  unfolding wait_for_certificate print
  fetch_sotw_sds_certificate_update s (failed e) = ([], failed e)
  fetch_sotw_sds_certificate_update s (got stream) =
      let (acks, result) =
        wait_for_certificate
          (λ r. try_extract_certificate_from_sotw_response host r s.resource_name)
          (ack_sotw_request s) (codes "SDS stream closed before sending the requested Secret")
          stream in
      (initial_sotw_request s ∷ acks, timed (codes "s waiting for SDS resource \"") s result)

  unfoldable pub fetch_delta_sds_certificate_update :
      SdsSubscription
      → Tried (Stream DeltaDiscoveryResponse)
      → List DeltaDiscoveryRequest × Tried SdsCertificate
  unfolding wait_for_certificate print
  fetch_delta_sds_certificate_update s (failed e) = ([], failed e)
  fetch_delta_sds_certificate_update s (got stream) =
      let (acks, result) =
        wait_for_certificate
          (λ r. try_extract_certificate_from_delta_response host r s.resource_name)
          (ack_delta_request s)
          (codes "Delta SDS stream closed before sending the requested Secret") stream in
      (initial_delta_request s ∷ acks, timed (codes "s waiting for Delta SDS resource \"") s result)

  unfoldable pub watch_sotw_sds_certificates_once :
      SdsSubscription
      → (SdsCertificate → Tried (Unit {0}))
      → Tried (Stream DiscoveryResponse)
      → Watched DiscoveryRequest
  unfolding watch_responses
  watch_sotw_sds_certificates_once s on_update (failed e) = record {
    requests = [];
    updates = [];
    ended = some e;
  }
  watch_sotw_sds_certificates_once s on_update (got stream) =
      let w =
        watch_responses (λ r. try_extract_certificate_from_sotw_response host r s.resource_name)
          (ack_sotw_request s) (codes "SDS stream closed") on_update stream in
      record w { requests = initial_sotw_request s ∷ w.requests }

  unfoldable pub watch_delta_sds_certificates_once :
      SdsSubscription
      → (SdsCertificate → Tried (Unit {0}))
      → Tried (Stream DeltaDiscoveryResponse)
      → Watched DeltaDiscoveryRequest
  unfolding watch_responses
  watch_delta_sds_certificates_once s on_update (failed e) = record {
    requests = [];
    updates = [];
    ended = some e;
  }
  watch_delta_sds_certificates_once s on_update (got stream) =
      let w =
        watch_responses (λ r. try_extract_certificate_from_delta_response host r s.resource_name)
          (ack_delta_request s) (codes "Delta SDS stream closed") on_update stream in
      record w { requests = initial_delta_request s ∷ w.requests }

  -- What each interface of the control plane gives on an attempt to open its stream.
  abbrev pub Attempt : Type 0
  Attempt = Tried (Stream DiscoveryResponse) × Tried (Stream DeltaDiscoveryResponse)

  unfoldable pub fetch_sds_certificate_update : CertificateConfig → Attempt → Tried SdsCertificate
  unfolding subscription_from_config is_delta fetch_sotw_sds_certificate_update
      fetch_delta_sds_certificate_update
  fetch_sds_certificate_update config (sotw, delta) = subscription_from_config host config >>= (λ s.
      elim (is_delta s.api) [
        | true ↦ (fetch_delta_sds_certificate_update s delta).1
        | false ↦ (fetch_sotw_sds_certificate_update s sotw).1
      ])

  unfoldable pub fetch_sds_certificate : CertificateConfig → Attempt → Tried (Text × Text)
  unfolding fetch_sds_certificate_update
  fetch_sds_certificate config attempt =
      fetch_sds_certificate_update config attempt >>= (λ c. got (c.cert_pem, c.key_pem))

  -- The loop that opens a stream again when one has ended, for the attempts that are given. One that
  -- does not end is the last. The result is the certificates that were passed on.
  unfoldable pub watch_attempts :
      SdsSubscription → (SdsCertificate → Tried (Unit {0})) → List Attempt → List SdsCertificate
  unfolding is_delta watch_sotw_sds_certificates_once watch_delta_sds_certificates_once
  watch_attempts s on_update [] = []
  watch_attempts s on_update ((sotw, delta) ∷ attempts) =
      let rest = watch_attempts s on_update attempts in
      let (updates, ended) = elim (is_delta s.api) as (λ x. List SdsCertificate × Option Text) [
        | true ↦ let w = watch_delta_sds_certificates_once s on_update delta in (w.updates, w.ended)
        | false ↦ let w = watch_sotw_sds_certificates_once s on_update sotw in (w.updates, w.ended)
      ] in
      elim ended [ none ↦ updates | some e ↦ updates ++ rest ]

  unfoldable pub watch_sds_certificates :
      CertificateConfig
      → (SdsCertificate → Tried (Unit {0}))
      → List Attempt
      → Tried (List SdsCertificate)
  unfolding subscription_from_config watch_attempts
  watch_sds_certificates config on_update attempts =
      subscription_from_config host config >>= (λ s. got (watch_attempts s on_update attempts))
