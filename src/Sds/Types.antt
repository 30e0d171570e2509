-- ===== src/Sds/Types.antt =====
-- src/proto: the messages that src/sds.rs reads and writes, and its results. The encoding of the
-- messages is that of a library.
use miuturn.Common.{ℕ, List, Option, Text}

-- A value, or an error as its text.
pub data Tried {ℓ} (A : Type ℓ) : Type ℓ where
  got : A → Tried A
  failed : Text → Tried A

infixl 5 ◌>>=◌
abbrev pub ◌>>=◌ {ℓ κ} : {A : Type ℓ} {B : Type κ} → Tried A → (A → Tried B) → Tried B
got a >>= f = f a
failed e >>= f = failed e

pub record Node : Type 0 where
  pub id : Text
  pub cluster : Text

pub record DiscoveryRequest : Type 0 where
  pub version_info : Text
  pub node : Option Node
  pub resource_names : List Text
  pub type_url : Text
  pub response_nonce : Text

-- `google.protobuf.Any`.
pub record ProtoAny : Type 0 where
  pub type_url : Text
  pub value : List ℕ

pub record DiscoveryResponse : Type 0 where
  pub version_info : Text
  pub resources : List ProtoAny
  pub type_url : Text
  pub nonce : Text

pub record DeltaDiscoveryRequest : Type 0 where
  pub node : Option Node
  pub type_url : Text
  pub resource_names_subscribe : List Text
  pub resource_names_unsubscribe : List Text
  pub initial_resource_versions : List (Text × Text)
  pub response_nonce : Text

pub record Resource : Type 0 where
  pub name : Text
  pub version : Text
  pub resource : Option ProtoAny

pub record DeltaDiscoveryResponse : Type 0 where
  pub system_version_info : Text
  pub resources : List Resource
  pub type_url : Text
  pub nonce : Text
  pub removed_resources : List Text

pub data Specifier : Type 0 where
  inline_string filename : Text → Specifier
  inline_bytes : List ℕ → Specifier

-- A source of data has its specifier, if one is set.
pub record TlsCertificate : Type 0 where
  pub certificate_chain : Option (Option Specifier)
  pub private_key : Option (Option Specifier)

pub record Secret : Type 0 where
  pub name : Text
  pub tls_certificate : Option TlsCertificate

pub record SdsCertificate : Type 0 where
  pub cert_pem : Text
  pub key_pem : Text
  pub version_info : Text
  pub nonce : Text

-- Functions of libraries and of the operating system: the decoding of a secret and of UTF-8, the
-- contents of a file, trimming of white space, the variable HOSTNAME and the file /etc/hostname.
pub record Host : Type 0 where
  pub decode_secret : List ℕ → Tried Secret
  pub from_utf8 : List ℕ → Tried Text
  pub read : Text → Tried (List ℕ)
  pub trim : Text → Text
  pub hostname_variable : Option Text
  pub etc_hostname : Option Text
