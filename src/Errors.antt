-- ===== src/Errors.antt =====
-- src/errors.rs: the errors of the library, and `Result` over them. An error of the operating
-- system and a message is its text.
use miuturn.Common.{Text, ◌++◌}
use miuturn.Common.Texts.{codes}
use miuturn.Net.{SocketAddr}

pub data Error : Type 0 where
  io : Text → Error
  protocol : Text → Error
  not_found already_exists invalid_channel no_allocation allocation_failed : Error
  allocation_quota_reached relay_port_exhausted : Error
  relay_bind_failed : SocketAddr → Text → Error
  bandwidth_limit_exceeded : Error
  encode decode : Text → Error

pub data Result {ℓ} (A : Type ℓ) : Type ℓ where
  ok : A → Result A
  err : Error → Result A

-- `Display`. How the standard library prints an address is an argument.
unfoldable pub display : (SocketAddr → Text) → Error → Text
display print_addr (io e) = codes "IO error: " ++ e
display print_addr (protocol s) = codes "Protocol error: " ++ s
display print_addr not_found = codes "Not found"
display print_addr already_exists = codes "Already exists"
display print_addr invalid_channel = codes "Invalid channel"
display print_addr no_allocation = codes "No allocation"
display print_addr allocation_failed = codes "Allocation failed"
display print_addr allocation_quota_reached = codes "Allocation quota reached"
display print_addr relay_port_exhausted = codes "No relay ports available"
display print_addr (relay_bind_failed addr source) =
    codes "Failed to bind relay socket on " ++ (print_addr addr ++ (codes ": " ++ source))
display print_addr bandwidth_limit_exceeded = codes "Bandwidth limit exceeded"
display print_addr (encode s) = codes "Encode error: " ++ s
display print_addr (decode s) = codes "Decode error: " ++ s
