-- ===== src/Health/Urls.antt =====
-- src/health.rs: the answers that have no session: the credentials of the TURN REST interface and
-- the addresses of the server.
use miuturn.Common.{
  ℕ, List, [], ◌∷◌, ◌++◌, Option, none, some, Bool, true, false, ltb, ◌==◌, if◌then◌else◌, Text,
}
use miuturn.Common.Texts.{codes, same_text, print}
use miuturn.Net.{port}
use miuturn.Auth.ShortTerm.{generate}
use miuturn.Config.Types.{ListenConfig}
use miuturn.Health.State.{
  Web, Visit, Site, Answer, no_ice_servers, ice_servers, turn_rest_disabled, turn_rest_unconfigured,
  turn_credentials, failed,
}

-- The order of texts, byte by byte.
unfoldable pub text_leb : Text → Text → Bool
text_leb [] t = true
text_leb (c ∷ s) [] = false
text_leb (c ∷ s) (d ∷ t) =
    let rest = text_leb s t in if ltb c d then true else if c == d then rest else false

-- `sort`.
unfoldable pub insert_text : Text → List Text → List Text
unfolding text_leb
insert_text s [] = s ∷ []
insert_text s (t ∷ ts) =
    let rest = insert_text s ts in if text_leb s t then s ∷ t ∷ ts else t ∷ rest

unfoldable pub sort_texts : List Text → List Text
unfolding insert_text
sort_texts [] = []
sort_texts (s ∷ ss) = insert_text s (sort_texts ss)

-- `dedup`: the first of each run of equal texts stays.
unfoldable pub dedup_after : Text → List Text → List Text
dedup_after s [] = []
dedup_after s (t ∷ ts) = elim (same_text s t) [
  | true ↦ dedup_after s ts
  | false ↦ t ∷ dedup_after t ts
]

unfoldable pub dedup : List Text → List Text
unfolding dedup_after
dedup [] = []
dedup (s ∷ ss) = s ∷ dedup_after s ss

-- The URL of a listener, if its protocol has one.
unfoldable pub url_of : Text → Text → ℕ → Option Text
unfolding print
url_of external_ip protocol p =
    let target = external_ip ++ (b':' ∷ print p) in
    if same_text protocol (codes "udp")
    then some (codes "turn:" ++ target)
    else if same_text protocol (codes "tcp")
    then some (codes "turn:" ++ (target ++ codes "?transport=tcp"))
    else if same_text protocol (codes "tls")
    then some (codes "turns:" ++ (target ++ codes "?transport=tcp"))
    else if same_text protocol (codes "dtls")
    then some (codes "turns:" ++ (target ++ codes "?transport=udp"))
    else none

abbrev pub with_url : Option Text → List Text → List Text
with_url none urls = urls
with_url (some url) urls = url ∷ urls

module _ (web : Web) where
  -- The URLs of the listeners in their order. An address that cannot be read is a panic.
  unfoldable pub urls_of : Text → List ListenConfig → Option (List Text)
  unfolding url_of
  urls_of external_ip [] = some []
  urls_of external_ip (config ∷ configs) =
      let rest = urls_of external_ip configs in
      elim (web.parse_socket_addr config.address) [
        | none ↦ none
        | some addr ↦ elim rest [
          | none ↦ none
          | some urls ↦ some (with_url (url_of external_ip config.protocol (port addr)) urls)
        ]
      ]

  unfoldable pub ice_servers_handler : Site → Visit → Text → Option ℕ → Answer
  unfolding urls_of sort_texts dedup
  ice_servers_handler site visit username lifetime = elim site.app.turn_rest.enabled [
    | false ↦ no_ice_servers
    | true ↦ elim site.app.turn_rest.credential_manager [
      | none ↦ no_ice_servers
      | some manager ↦
          let (name, password, expires) =
            generate web.hmac_sha1 web.hex manager username lifetime visit.unix_secs in
          elim (urls_of site.app.external_ip site.app.listen_configs) [
            | none ↦ failed
            | some urls ↦ ice_servers (dedup (sort_texts urls)) name password
          ]
    ]
  ]

  unfoldable pub turn_credentials_handler : Site → Visit → Text → Option ℕ → Answer
  turn_credentials_handler site visit username lifetime = elim site.app.turn_rest.enabled [
    | false ↦ turn_rest_disabled
    | true ↦ elim site.app.turn_rest.credential_manager [
      | none ↦ turn_rest_unconfigured
      | some manager ↦
          let (name, password, expires) =
            generate web.hmac_sha1 web.hex manager username lifetime visit.unix_secs in
          turn_credentials name password expires
    ]
  ]
