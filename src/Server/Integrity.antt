-- ===== src/Server/Integrity.antt =====
-- src/server.rs: the MESSAGE-INTEGRITY attribute.
use miuturn.Common.{
  ℕ, ◌+◌, ◌%◌, ◌^◌, List, [], ◌∷◌, ◌++◌, Option, none, some, Bool, false, ltb, ◌==◌, if◌then◌else◌,
  length, take, Text,
}
use miuturn.Common.Texts.{same_text}
use miuturn.Message.Types.{Message, Attribute, cookie}
use miuturn.Message.AttrType
use miuturn.Message.Header
use miuturn.Message.Codec.{encode_attributes, add_attribute, get_attribute}
use miuturn.Server.State.{Externals}

module _ (ext : Externals) where
  unfoldable pub compute_message_integrity_key : Text → Text → Text → List ℕ
  compute_message_integrity_key username realm password =
      ext.md5 (username ++ (b':' ∷ realm ++ (b':' ∷ password)))

  -- The attributes in front of the first MESSAGE-INTEGRITY.
  abbrev pub before_integrity : List Attribute → List Attribute
  before_integrity [] = []
  before_integrity (a ∷ rest) =
      if a.attr_type == AttrType.message_integrity then [] else a ∷ before_integrity rest

  -- The bytes that are signed: a header that counts the attributes and 24 bytes of the signature,
  -- and the attributes.
  unfoldable pub signed_bytes : Message → List Attribute → List ℕ
  signed_bytes m attributes =
      let attr_buf = encode_attributes attributes in
      let header = record (m.header) {
        message_length = (length attr_buf + 24) % 2 ^ 16;
        magic_cookie = cookie;
      } in
      Header.encode header ++ attr_buf

  -- A shorter value than 20 bytes makes the comparison of the slices panic: no result.
  unfoldable pub verify_message_integrity : Message → List ℕ → Option Bool
  unfolding signed_bytes
  verify_message_integrity msg key = elim (get_attribute msg AttrType.message_integrity) [
    | none ↦ some false
    | some integrity_attr ↦
        let computed = ext.hmac_sha1 key (signed_bytes msg (before_integrity msg.attributes)) in
        if ltb (length integrity_attr.value) 20
        then none
        else some (same_text (take 20 computed) (take 20 integrity_attr.value))
  ]

  unfoldable pub add_response_message_integrity : Message → List ℕ → Message
  unfolding signed_bytes
  add_response_message_integrity response key =
      let computed = ext.hmac_sha1 key (signed_bytes response response.attributes) in
      add_attribute response
        (record { attr_type = AttrType.message_integrity; value = take 20 computed })
