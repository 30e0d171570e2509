-- ===== src/Server/HandlerTests.antt =====
-- Runs of the handlers of src/server.rs, and the theorems applied to them.
use miuturn.Common.{
  ℕ, ℕ_discrete, ◌≡◌, ◌↔◌, refl, List, [], ◌∷◌, none, some, true, false, arith, replicate, Text,
}
use miuturn.Common.Map.{lookup}
use miuturn.Common.Texts.{codes, Text-discrete}
use miuturn.Net.{SocketAddr, v4}
use miuturn.Message.Types.{Message, Attribute, allocate, request, cookie}
use miuturn.Message.Types
use miuturn.Message.AttrType
use miuturn.Message.Codec.{get_attribute}
use miuturn.Allocations.Table.{Ipv4Addr}
use miuturn.Allocations.Create.{Attempt}
use miuturn.Server.Integrity.{verify_message_integrity}
use miuturn.Server.State.{Externals, Moment, TurnServer, get_password_for_user, panicked}
use miuturn.Server.Start.{with_port_range_limits_bind_address_and_password}
use miuturn.Server.Verify.{accepted, verify_turn_auth}
use miuturn.Server.Handlers.{handle_allocate, attribute}
use miuturn.Server.Requests.{handle_refresh, handle_create_permission, handle_channel_bind}
use miuturn.Server.Dispatch.{process_message}
use miuturn.Server.Preserves.{IsServer}
use miuturn.Server.Histories.{udp, allocations_tick, nonces_tick, run, run-IsServer}
use miuturn.Server.Login.{IsAuthentic, verify_turn_auth-accepted, process_message-Unchanged}
use miuturn.Server.Panics.{short_integrity_panics}

-- Digests of zeros, and texts that are their bytes.
abbrev pub ext : Externals
ext = record {
  md5 = λ s. replicate 16 0;
  hmac_sha1 = λ k s. replicate 20 0;
  from_utf8_lossy = λ s. s;
  print_addr = λ a. [];
  print_ip = λ a. [];
  debug_name = λ e. [];
}

abbrev world : ℕ → Attempt
world n = record { draw_1 = 0; draw_2 = n; failure = none }

abbrev pub at : Moment
at = record {
  now = 0;
  unix_secs = 0;
  nonce = codes "n";
  world = world;
  id = replicate 12 0;
  relay = 3;
  sent = true;
}

abbrev pub external : Ipv4Addr
external = (203, 0, 113, 1)

abbrev pub client : SocketAddr
client = v4 198 51 100 7 40000

-- An Allocate request without attributes.
abbrev allocate_bytes : List ℕ
allocate_bytes =
    0 ∷ 3 ∷ 0 ∷ 0 ∷ 0x21 ∷ 0x12 ∷ 0xa4 ∷ 0x42 ∷ 1 ∷ 2 ∷ 3 ∷ 4 ∷ 5 ∷ 6 ∷ 7 ∷ 8 ∷ 9 ∷ 10 ∷ 11 ∷ 12
    ∷ []

run-IsServer_example : IsServer (
    run ext
      (with_port_range_limits_bind_address_and_password external external
        (codes "r")
        49152
        49153
        none
        none
        (codes "password")
        true
        0)
      (udp allocate_bytes client at ∷ allocations_tick 7 ∷ nonces_tick 9 ∷ []))
run-IsServer_example =
    run-IsServer ext external external (codes "r") 49152 49153 none none (codes "password") true 0
      (udp allocate_bytes client at ∷ allocations_tick 7 ∷ nonces_tick 9 ∷ []) (omega arith)
      (omega arith) (omega arith)

abbrev message : List Attribute → Message
message attributes = record {
  header = record {
    method = allocate;
    event_type = request;
    message_length = 0;
    magic_cookie = cookie;
    transaction_id = replicate 12 0;
  };
  attributes = attributes;
}

abbrev pub bare : Message
bare = message []

-- A server that knows the nonce n.
abbrev server : TurnServer
server =
    record (with_port_range_limits_bind_address_and_password external external (codes "r") 49152
      49153 none none (codes "password") false 0) {
        nonce_map = (codes "n", 0) ∷ [];
        auth_disabled = false;
        auth_manager = none;
        password = codes "password";
      }

allocate-ne-send : (◌≡◌ {A = _} (bare.header).method Types.send) → ⊥
allocate-ne-send e = cc

nobody : (username : Text) → ¬ IsAuthentic ext server bare client at username
unfolding get_attribute
nobody username a = ground (arith, a.has_nonce)

process_message-Unchanged_example :
    ((process_message ext server bare client at).0.allocation_table ≡ server.allocation_table)
    × ((process_message ext server bare client at).0.channel_table ≡ server.channel_table)
process_message-Unchanged_example =
    process_message-Unchanged ext server bare client at refl allocate-ne-send nobody

abbrev nonce_attr : Attribute
nonce_attr = attribute AttrType.nonce (codes "n")

abbrev user_attr : Attribute
user_attr = attribute AttrType.username (codes "u")

abbrev short_attr : Attribute
short_attr = attribute AttrType.message_integrity (1 ∷ [])

abbrev short : Message
short = message (nonce_attr ∷ user_attr ∷ short_attr ∷ [])

has_nonce : get_attribute short AttrType.nonce ≡ some nonce_attr
unfolding get_attribute
has_nonce = refl

has_user : get_attribute short AttrType.username ≡ some user_attr
unfolding get_attribute
has_user = refl

has_integrity : get_attribute short AttrType.message_integrity ≡ some short_attr
unfolding get_attribute
has_integrity = refl

nonce_known : lookup Text-discrete (codes "n") server.nonce_map ≡ some 0
nonce_known = ground arith

has_password : get_password_for_user server (codes "u") 0 ≡ some (codes "password")
unfolding get_password_for_user
has_password = refl

short_integrity_panics_example :
    (handle_allocate ext server short client at ≡ (server, panicked))
    × (handle_refresh ext server short client at ≡ (server, panicked))
    × (handle_create_permission ext server short client at ≡ (server, panicked))
    × (handle_channel_bind ext server short client at ≡ (server, panicked))
short_integrity_panics_example =
    short_integrity_panics ext server short client at nonce_attr user_attr short_attr 0
      (codes "password") refl refl has_nonce has_user nonce_known (omega arith) has_password
      has_integrity (omega arith)

-- The code that the digest of zeros gives.
abbrev signed_request : Message
signed_request =
    message (nonce_attr ∷ user_attr ∷ attribute AttrType.message_integrity (replicate 20 0) ∷ [])

verify_turn_auth-accepted_example :
    ((verify_turn_auth ext server signed_request client at).1 ≡ accepted (codes "u"))
    ↔ IsAuthentic ext server signed_request client at (codes "u")
verify_turn_auth-accepted_example =
    verify_turn_auth-accepted ext server signed_request client at (codes "u") refl

signed_passes : (verify_turn_auth ext server signed_request client at).1 ≡ accepted (codes "u")
unfolding verify_turn_auth get_attribute get_password_for_user verify_message_integrity
    Text-discrete ℕ_discrete
signed_passes = refl
