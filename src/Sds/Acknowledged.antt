-- ===== src/Sds/Acknowledged.antt =====
-- src/sds.rs: the requests and the certificates of a watch.
use miuturn.Common.{
  List, [], ◌∷◌, ◌++◌, Option, none, some, ◌≡◌, refl, sym, ap, subst, ◌∙◌, ◌⊎◌, inl, inr, map,
  append_assoc, Text,
}
use miuturn.Common.Texts.{codes}
use miuturn.Sds.Types.{
  Tried, got, failed, DiscoveryRequest, DiscoveryResponse, SdsCertificate, Host,
}
use miuturn.Sds.Subscription.{SdsSubscription, initial_sotw_request, ack_sotw_request}
use miuturn.Sds.Extract.{try_extract_certificate_from_sotw_response}
use miuturn.Sds.Watch.{
  Stream, closed, silent, broken, message, Watched, after_response, watch_responses,
  watch_sotw_sds_certificates_once,
}

abbrev pub responses : {R : Type 0} → Stream R → List R
responses closed = []
responses silent = []
responses (broken e) = []
responses (message r sent rest) = r ∷ responses rest

-- The certificate of a response, if it has one.
abbrev pub certificates : Tried (Option SdsCertificate) → List SdsCertificate
certificates (failed e) = []
certificates (got none) = []
certificates (got (some c)) = c ∷ []

abbrev pub all_certificates :
    {R : Type 0} → (R → Tried (Option SdsCertificate)) → List R → List SdsCertificate
all_certificates extract [] = []
all_certificates extract (r ∷ rs) = certificates (extract r) ++ all_certificates extract rs

-- The requests acknowledge the first responses, one each, and the certificates are those of these
-- responses, in their order; the certificate of the next response may follow.
abbrev pub Accounted :
    {R Q : Type 0} → (R → Tried (Option SdsCertificate)) → (R → Q) → Stream R → Watched Q → Type 0
Accounted {R} extract ack stream w =
    (done : List R) × (left : List R) × (responses stream ≡ done ++ left)
    × (w.requests ≡ map ack done)
    × ((w.updates ≡ all_certificates extract done)
        ⊎ ((next : R) × (more : List R) × (left ≡ next ∷ more)
            × (w.updates ≡ all_certificates extract done ++ certificates (extract next))))

module _ {R Q : Type 0} (extract : R → Tried (Option SdsCertificate)) (ack : R → Q) where
  stops_first :
      (r : R) (sent : Tried (Unit {0})) (rest : Stream R) (e : Option Text)
      → Accounted extract ack
          (message r sent rest)
          (record { requests = []; updates = []; ended = e })
  stops_first r sent rest e = ([], r ∷ responses rest, refl, refl, inl refl)

  stops_after :
      (r : R) (sent : Tried (Unit {0})) (rest : Stream R) (c : SdsCertificate) (e : Option Text)
      → extract r ≡ got (some c)
      → Accounted extract ack
          (message r sent rest)
          (record { requests = []; updates = c ∷ []; ended = e })
  stops_after r sent rest c e given = (
    [],
    r ∷ responses rest,
    refl,
    refl,
    inr (r, responses rest, refl, ap certificates (sym given)),
  )

  goes_on :
      (r : R) (sent : Tried (Unit {0})) (rest : Stream R) (w : Watched Q)
      → Accounted extract ack rest w
      → Accounted extract ack (message r sent rest) (record {
        requests = ack r ∷ w.requests;
        updates = certificates (extract r) ++ w.updates;
        ended = w.ended;
      })
  goes_on r sent rest w (done, left, split, sends, inl same) = (
    r ∷ done,
    left,
    ap (λ l. r ∷ l) split,
    ap (λ l. ack r ∷ l) sends,
    inl (ap (λ l. certificates (extract r) ++ l) same),
  )
  goes_on r sent rest w (done, left, split, sends, inr (next, more, e, same)) = (
    r ∷ done,
    left,
    ap (λ l. r ∷ l) split,
    ap (λ l. ack r ∷ l) sends,
    inr (
      next,
      more,
      e,
      ap (λ l. certificates (extract r) ++ l) same
          ∙ sym (
              append_assoc (certificates (extract r)) (all_certificates extract done)
                (certificates (extract next))),
    ),
  )

  module _ (closed_text : Text) (on_update : SdsCertificate → Tried (Unit {0})) where
    -- A response whose certificate was extracted with a result.
    after_message :
        (r : R) (sent : Tried (Unit {0})) (rest : Stream R) (w : Watched Q)
        (x : Tried (Option SdsCertificate))
        → extract r ≡ x
        → Accounted extract ack rest w
        → Accounted extract ack (message r sent rest) (after_response ack on_update w r sent x)
    after_message r sent rest w (failed e) given ih = stops_first r sent rest (some e)
    after_message r (failed e) rest w (got none) given ih = stops_first r (failed e) rest (some e)
    after_message r (got u) rest w (got none) given ih =
        subst
          (λ us.
            Accounted extract ack (message r (got u) rest)
              (record { requests = ack r ∷ w.requests; updates = us; ended = w.ended }))
          (ap (λ x. certificates x ++ w.updates) given) (goes_on r (got u) rest w ih)
    after_message r sent rest w (got (some c)) given ih = after_update (on_update c) sent
      where
        -- As `after_response`, with the outcomes of passing on and of sending.
        after_update :
            (passed sent' : Tried (Unit {0}))
            → Accounted extract ack (message r sent' rest) (elim passed as (λ x. Watched Q) [
              | failed e ↦ record { requests = []; updates = c ∷ []; ended = some e }
              | got v ↦ elim sent' as (λ x. Watched Q) [
                | failed e ↦ record { requests = []; updates = c ∷ []; ended = some e }
                | got u ↦ record {
                  requests = ack r ∷ w.requests;
                  updates = c ∷ w.updates;
                  ended = w.ended;
                }
              ]
            ])
        after_update (failed e) sent' = stops_after r sent' rest c (some e) given
        after_update (got v) (failed e) = stops_after r (failed e) rest c (some e) given
        after_update (got v) (got u) =
            subst
              (λ us.
                Accounted extract ack (message r (got u) rest)
                  (record { requests = ack r ∷ w.requests; updates = us; ended = w.ended }))
              (ap (λ x. certificates x ++ w.updates) given) (goes_on r (got u) rest w ih)

    watch_responses-Accounted :
        (stream : Stream R)
        → Accounted extract ack stream (watch_responses extract ack closed_text on_update stream)
    unfolding watch_responses
    watch_responses-Accounted closed = ([], [], refl, refl, inl refl)
    watch_responses-Accounted silent = ([], [], refl, refl, inl refl)
    watch_responses-Accounted (broken e) = ([], [], refl, refl, inl refl)
    watch_responses-Accounted (message r sent rest) =
        after_message r sent rest (watch_responses extract ack closed_text on_update rest)
          (extract r) refl (watch_responses-Accounted rest)

-- What a watch sends after its first request are acknowledgements of the first responses of the
-- stream, one each and in their order, and it passes on the certificates of exactly these
-- responses, in their order, and then at most that of the next response.
pub watch_sotw_sds_certificates_once-Accounted :
    (host : Host) (s : SdsSubscription) (on_update : SdsCertificate → Tried (Unit {0}))
    (stream : Stream DiscoveryResponse)
    → let w = watch_sotw_sds_certificates_once host s on_update (got stream) in
      (acks : List DiscoveryRequest) × (w.requests ≡ initial_sotw_request s ∷ acks)
      × Accounted
          (λ r. try_extract_certificate_from_sotw_response host r s.resource_name)
          (ack_sotw_request s)
          stream
          (record { requests = acks; updates = w.updates; ended = w.ended })
unfolding watch_sotw_sds_certificates_once
watch_sotw_sds_certificates_once-Accounted host s on_update stream = (
  _,
  refl,
  watch_responses-Accounted (λ r. try_extract_certificate_from_sotw_response host r s.resource_name)
      (ack_sotw_request s) (codes "SDS stream closed") on_update stream,
)
