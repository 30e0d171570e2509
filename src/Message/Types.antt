-- ===== src/Message/Types.antt =====
-- src/message.rs: the enums and records of a STUN message, and the attribute types.
use miuturn.Common.{ℕ, List}

-- `Method::Data` is `data_message`.
pub data Method : Type 0 where
  binding allocate refresh send data_message create_permission channel_bind : Method

pub data EventType : Type 0 where
  request indication success error : EventType

pub data ErrorCode : Type 0 where
  try_alternate bad_request unauthorized forbidden not_found : ErrorCode
  allocation_mismatch stale_credentials unsupported_transport : ErrorCode
  allocation_quota_reached role_conflict server_error insufficient_capacity : ErrorCode

-- `ErrorCode::code`: the discriminants of the enum.
unfoldable pub code : ErrorCode → ℕ
code try_alternate = 300
code bad_request = 400
code unauthorized = 401
code forbidden = 403
code not_found = 404
code allocation_mismatch = 437
code stale_credentials = 438
code unsupported_transport = 442
code allocation_quota_reached = 486
code role_conflict = 487
code server_error = 500
code insufficient_capacity = 508

pub record MessageHeader : Type 0 where
  pub method : Method
  pub event_type : EventType
  pub message_length : ℕ
  pub magic_cookie : ℕ
  pub transaction_id : List ℕ

pub record Attribute : Type 0 where
  pub attr_type : ℕ
  pub value : List ℕ

pub record Message : Type 0 where
  pub header : MessageHeader
  pub attributes : List Attribute

abbrev pub cookie : ℕ
cookie = 0x2112_A442
