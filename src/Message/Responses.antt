-- ===== src/Message/Responses.antt =====
-- src/message.rs: what an error response tells the client.
use miuturn.Common.{◌+◌, ◌*◌, ◌≡◌, refl, [], ◌∷◌, Option, none, some, drop, Text}
use miuturn.Message.Types.{try_alternate, ErrorCode, code, error, MessageHeader, Attribute, Message}
use miuturn.Message.AttrType
use miuturn.Message.Header.{byte}
use miuturn.Message.Codec.{create_error_response_with_reason, get_attribute}

-- The class in the third byte and the number in the fourth make up the code.
abbrev pub Reports : MessageHeader → ErrorCode → Text → Message → Attribute → Type 0
Reports header c text m attr =
    (get_attribute m AttrType.error_code ≡ some attr)
    × (byte attr.value 2 * 100 + byte attr.value 3 ≡ code c)
    × (drop 4 attr.value ≡ text)
    × ((m.header).event_type ≡ error)
    × ((m.header).method ≡ header.method)
    × ((m.header).transaction_id ≡ header.transaction_id)

abbrev pub reason_text : Text → Option Text → Text
reason_text name none = name
reason_text name (some r) = r

abbrev pub first_attribute : Message → Attribute
first_attribute m = elim m.attributes [ [] ↦ record { attr_type = 0; value = [] } | a ∷ rest ↦ a ]

-- An error response repeats the method and the transaction id of the request, is of class error,
-- and carries the code, class and number apart, and the reason, or the code's name if none is given.
pub create_error_response_with_reason-Reports :
    (debug_name : ErrorCode → Text) (header : MessageHeader) (c : ErrorCode) (reason : Option Text)
    → let m = create_error_response_with_reason debug_name header c reason in
      Reports header c (reason_text (debug_name c) reason) m (first_attribute m)
unfolding create_error_response_with_reason get_attribute
create_error_response_with_reason-Reports debug_name header try_alternate none =
    (refl, refl, refl, refl, refl, refl)
create_error_response_with_reason-Reports debug_name header _ none =
    (refl, refl, refl, refl, refl, refl)
create_error_response_with_reason-Reports debug_name header try_alternate (some r) =
    (refl, refl, refl, refl, refl, refl)
create_error_response_with_reason-Reports debug_name header _ (some r) =
    (refl, refl, refl, refl, refl, refl)
