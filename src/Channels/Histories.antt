-- ===== src/Channels/Histories.antt =====
-- src/allocation.rs, `ChannelTable`: what holds after any sequence of operations on a new table.
use miuturn.Common.{
  ℕ, ◌≤◌, ◌≡◌, refl, List, [], ◌∷◌, some, Bool, not, All-retain, arith, inl, inr, Option-cases,
  Bool-cases,
}
use miuturn.Common.Map.{
  lookup, insert, All-insert, All-remove, All-lookup, insert-IsMap, remove-IsMap, retain-IsMap,
}
use miuturn.Net.{SocketAddr}
use miuturn.Channels.Table.{
  Key, Key-discrete, ChannelBinding, ChannelTable, same, is_expired, new, bind, get_by_channel,
  unbind, next_id, remove_for_relayed, cleanup_expired,
}
use miuturn.Channels.Laws.{IsValid, Agrees}

-- The operations that change the table; a time stands with those that read the clock.
pub data Call : Type 0 where
  binds : ℕ → SocketAddr → SocketAddr → ℕ → Call
  unbinds : SocketAddr → ℕ → Call
  takes_id : Call
  clears : SocketAddr → Call
  cleans : ℕ → Call

unfoldable pub step : ChannelTable → Call → ChannelTable
step t (binds channel_id peer relayed now) = (bind t channel_id peer relayed now).0
step t (unbinds relayed channel_id) = (unbind t relayed channel_id).0
step t takes_id = (next_id t).0
step t (clears relayed) = (remove_for_relayed t relayed).0
step t (cleans now) = (cleanup_expired t now).0

unfoldable pub run : ChannelTable → List Call → ChannelTable
run t [] = t
run t (c ∷ cs) = run (step t c) cs

pub new-IsValid : IsValid new
unfolding new
new-IsValid = record { distinct = tt; agree = tt; in_range = omega arith }

insert-IsValid :
    (t : ChannelTable) (key : Key) (b : ChannelBinding)
    → Agrees (key, b)
    → IsValid t
    → IsValid (record t { channels = insert Key-discrete key b t.channels })
insert-IsValid t key b h v = record {
  distinct = insert-IsMap Key-discrete key b t.channels v.distinct;
  agree = All-insert Key-discrete Agrees key b t.channels h v.agree;
  in_range = v.in_range;
}

pub bind-IsValid :
    (t : ChannelTable) (channel_id : ℕ) (peer relayed : SocketAddr) (now : ℕ)
    → IsValid t
    → IsValid (bind t channel_id peer relayed now).0
unfolding bind
bind-IsValid t channel_id peer relayed now v =
    elim (Option-cases (lookup Key-discrete (relayed, channel_id) t.channels)) [
      | inl e ↦ rw (e, bind) (insert-IsValid t (relayed, channel_id) _ (refl, refl) v)
      | inr (b, e) ↦
          let old : Agrees ((relayed, channel_id), b) =
            All-lookup Key-discrete Agrees (relayed, channel_id) b t.channels v.agree e in
          elim (Bool-cases (same b.peer_addr peer)) [
            | inl here ↦ rw (e, bind, here) (insert-IsValid t (relayed, channel_id) _ old v)
            | inr away ↦ rw (e, bind, away) v
          ]
    ]

pub step-IsValid : (t : ChannelTable) (c : Call) → IsValid t → IsValid (step t c)
unfolding step unbind next_id remove_for_relayed cleanup_expired
step-IsValid t (binds channel_id peer relayed now) v = bind-IsValid t channel_id peer relayed now v
step-IsValid t (unbinds relayed channel_id) v = record {
  distinct = remove-IsMap Key-discrete (relayed, channel_id) t.channels v.distinct;
  agree = All-remove Key-discrete Agrees (relayed, channel_id) t.channels v.agree;
  in_range = v.in_range;
}
step-IsValid t takes_id v = record {
  distinct = ground (arith, v.distinct);
  agree = ground (arith, v.agree);
  in_range = ground arith;
}
step-IsValid t (clears relayed) v =
    let p : Key × ChannelBinding → Bool = λ e. not (same e.0.0 relayed) in
    record {
      distinct = retain-IsMap p t.channels v.distinct;
      agree = All-retain Agrees p t.channels v.agree;
      in_range = v.in_range;
    }
step-IsValid t (cleans now) v =
    let p : Key × ChannelBinding → Bool = λ e. not (is_expired e.1 now) in
    record {
      distinct = retain-IsMap p t.channels v.distinct;
      agree = All-retain Agrees p t.channels v.agree;
      in_range = v.in_range;
    }

pub run-IsValid : (t : ChannelTable) (cs : List Call) → IsValid t → IsValid (run t cs)
unfolding run
run-IsValid t [] v = v
run-IsValid t (c ∷ cs) v = run-IsValid (step t c) cs (step-IsValid t c v)

-- After any operations on a new table, a binding that is looked up is the allocation's own and has
-- the number asked for, and the next number handed out is in the range of channel numbers.
pub run-new :
    (cs : List Call)
    → let t = run new cs in
      ((r : SocketAddr) (c : ℕ) (b : ChannelBinding)
        → get_by_channel t r c ≡ some b
        → (b.relayed_addr ≡ r) × (b.channel_id ≡ c))
      × (0x4000 ≤ (next_id t).1)
      × ((next_id t).1 ≤ 0x7FFF)
unfolding get_by_channel next_id
run-new cs =
    let v = run-IsValid new cs new-IsValid in
    (
      λ r c b e. All-lookup Key-discrete Agrees (r, c) b (run new cs).channels v.agree e,
      v.in_range.0,
      v.in_range.1,
    )
