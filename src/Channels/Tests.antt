-- ===== src/Channels/Tests.antt =====
-- src/allocation.rs, `ChannelTable`: a small table, and the theorems at concrete inputs.
use miuturn.Common.{◌≡◌, refl, [], ◌∷◌, none, some, ite, ℕ_discrete}
use miuturn.Net.{SocketAddr, v4, SocketAddr-discrete}
use miuturn.Errors.{err, already_exists}
use miuturn.Channels.Table.{
  Key-discrete, ChannelBinding, ChannelTable, is_expired, new, bind, get_by_channel, next_id,
  fetch_id, wrap_around, remove_for_relayed, cleanup_expired, get_by_peer_for_relayed,
}
use miuturn.Channels.Laws.{IsValid, bound, bind_answer, get_by_channel-bind}
use miuturn.Channels.Histories.{binds, takes_id, step, run, run-IsValid, new-IsValid}

program : Unit {0}
unfolding Key-discrete SocketAddr-discrete ℕ_discrete new bind get_by_channel fetch_id wrap_around
    next_id remove_for_relayed cleanup_expired get_by_peer_for_relayed step run is_expired
program = tt

abbrev relay : SocketAddr
relay = v4 10 0 0 1 49152

abbrev peer : SocketAddr
peer = v4 192 0 2 1 4000

abbrev stranger : SocketAddr
stranger = v4 192 0 2 9 4000

abbrev table : ChannelTable
table = run new (binds 0x4000 peer relay 5 ∷ takes_id ∷ [])

table-IsValid : IsValid table
table-IsValid = run-IsValid new (binds 0x4000 peer relay 5 ∷ takes_id ∷ []) new-IsValid

refuses_other_peer : (bind table 0x4000 stranger relay 9).1 ≡ err already_exists
unfolding program
refuses_other_peer = refl

-- Two threads that both take a number before either wraps around: the second gets 0x8000, which is
-- no channel number.
late_wrap : (fetch_id (fetch_id (record table { next_channel = 0x7FFF })).0).1 ≡ 0x8000
unfolding program
late_wrap = refl

get_by_channel-bind_example :
    ((bind table 0x4000 stranger relay 9).1
      ≡ bind_answer (get_by_channel table relay 0x4000) stranger)
    × (get_by_channel (bind table 0x4000 stranger relay 9).0 relay 0x4000
        ≡ ite
            (Key-discrete (relay, 0x4000) (relay, 0x4000))
            (some (bound (get_by_channel table relay 0x4000) 0x4000 stranger relay 9))
            (get_by_channel table relay 0x4000))
get_by_channel-bind_example = get_by_channel-bind table 0x4000 0x4000 stranger relay relay 9

abbrev first_binding : ChannelBinding
first_binding = bound none 0x4000 peer relay 5
