-- ===== src/Tls/Pem.antt =====
-- src/tls.rs: certificates and keys in PEM blocks. The reading of the blocks and of the keys, and
-- what the libraries make of them, are arguments.
use miuturn.Common.{ℕ, List, [], ◌∷◌, ◌++◌, Bool, true, false, retain, map, Text}
use miuturn.Common.Texts.{codes, same_text}
use miuturn.Sds.Types.{Tried, got, failed, ◌>>=◌}

pub data PrivateKeyKind : Type 0 where
  pkcs1 pkcs8 sec1 : PrivateKeyKind

pub record TlsConfig : Type 0 where
  pub cert_der : List ℕ
  pub cert_chain_der : List (List ℕ)
  pub key_der : List ℕ
  pub key_kind : PrivateKeyKind

pub record Pem : Type 0 where
  pub tag : Text
  pub contents : List ℕ

-- The reading of PEM blocks and their encoding, the kind of a key, the conversion of a P-256 key,
-- the trimming of white space, and a DTLS certificate from its PEM: whether its key is RSA.
pub record Crypto : Type 0 where
  pub parse_many : List ℕ → Tried (List Pem)
  pub encode_pem : Pem → Text
  pub key_kind_of : List ℕ → Tried PrivateKeyKind
  pub p256_to_pkcs8 : List ℕ → Tried (List ℕ)
  pub trim : Text → Text
  pub dtls_is_rsa : Text → Tried Bool

abbrev pub join_texts : Text → List Text → Text
join_texts separator [] = []
join_texts separator (s ∷ []) = s
join_texts separator (s ∷ t ∷ ts) = s ++ (separator ++ join_texts separator (t ∷ ts))

module _ (crypto : Crypto) where
  unfoldable pub parse_certificate_chain : List ℕ → Tried (List (List ℕ))
  parse_certificate_chain cert_pem = crypto.parse_many cert_pem >>= (λ blocks.
      elim (map (λ (b : Pem). b.contents)
        (retain (λ (b : Pem). same_text b.tag (codes "CERTIFICATE")) blocks)) [
          | [] ↦ failed (codes "no CERTIFICATE blocks found in certificate PEM")
          | cert ∷ certs ↦ got (cert ∷ certs)
        ])

  -- The first block that is a key, or the errors of all.
  unfoldable pub first_key : List Text → List Pem → Tried (List ℕ × PrivateKeyKind)
  first_key errors [] = failed (
      codes "no supported private key block found in key PEM; tried DER auto-detection ("
      ++ (join_texts (codes "; ") errors ++ codes ")"))
  first_key errors (block ∷ blocks) = elim (crypto.key_kind_of block.contents) [
    | got kind ↦ got (block.contents, kind)
    | failed e ↦ first_key (errors ++ (block.tag ++ (codes ": " ++ e)) ∷ []) blocks
  ]

  unfoldable pub parse_private_key : List ℕ → Tried (List ℕ × PrivateKeyKind)
  unfolding first_key
  parse_private_key key_pem = crypto.parse_many key_pem >>= (λ blocks. first_key [] blocks)

  abbrev pub with_chain : List (List ℕ) → List ℕ → PrivateKeyKind → Tried TlsConfig
  with_chain [] key kind = failed (codes "certificate chain is empty")
  with_chain (cert ∷ certs) key kind =
      got
        (record { cert_der = cert; cert_chain_der = cert ∷ certs; key_der = key; key_kind = kind })

  unfoldable pub from_pem : List ℕ → List ℕ → Tried TlsConfig
  unfolding parse_certificate_chain parse_private_key
  from_pem cert_pem key_pem =
      parse_certificate_chain cert_pem
      >>= (λ chain. parse_private_key key_pem >>= (λ parsed. with_chain chain parsed.0 parsed.1))

  unfoldable pub parse_dtls_pkcs8_private_key_der : List ℕ → Tried (List ℕ)
  parse_dtls_pkcs8_private_key_der key_der = crypto.key_kind_of key_der >>= (λ kind. elim kind [
    | pkcs8 ↦ got key_der
    | pkcs1 ↦ failed (codes "private key DER is not PKCS#8")
    | sec1 ↦ failed (codes "private key DER is not PKCS#8")
  ])

  abbrev pub encode_dtls_private_key_pem : List ℕ → Text
  encode_dtls_private_key_pem key_der =
      crypto.encode_pem (record { tag = codes "PRIVATE_KEY"; contents = key_der })

  unfoldable pub first_dtls_key : List Text → List Pem → Tried Text
  unfolding parse_dtls_pkcs8_private_key_der
  first_dtls_key errors [] = failed (
      codes "no supported DTLS private key block found; tried PKCS#8 and P-256 SEC1 ("
      ++ (join_texts (codes "; ") errors ++ codes ")"))
  first_dtls_key errors (block ∷ blocks) = elim (parse_dtls_pkcs8_private_key_der block.contents) [
    | got key_der ↦ got (encode_dtls_private_key_pem key_der)
    | failed e ↦ elim (crypto.p256_to_pkcs8 block.contents) [
      | got key_der ↦ got (encode_dtls_private_key_pem key_der)
      | failed e' ↦
          first_dtls_key
            (errors
              ++ (block.tag ++ (codes " as PKCS#8: " ++ e))
                ∷ (block.tag ++ (codes " as P-256 SEC1: " ++ e'))
                ∷ [])
            blocks
    ]
  ]

  unfoldable pub normalize_dtls_private_key_pem : List ℕ → Tried Text
  unfolding first_dtls_key
  normalize_dtls_private_key_pem key_pem =
      crypto.parse_many key_pem >>= (λ blocks. first_dtls_key [] blocks)

  -- The PEM of the certificate that DTLS uses.
  unfoldable pub dtls_certificate_from_pem : Text → Text → Tried Text
  unfolding normalize_dtls_private_key_pem
  dtls_certificate_from_pem cert_pem key_pem =
      normalize_dtls_private_key_pem key_pem >>= (λ normalized.
        let dtls_pem = crypto.trim normalized ++ (10 ∷ crypto.trim cert_pem) in
        crypto.dtls_is_rsa dtls_pem >>= (λ rsa. elim rsa [
          | false ↦ got dtls_pem
          | true ↦ failed (
              codes "DTLS does not support RSA private keys with the current dtls crate; "
              ++ codes "use ECDSA P-256 or Ed25519, or allow the self-signed DTLS fallback")
        ]))
