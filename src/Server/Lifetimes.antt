-- ===== src/Server/Lifetimes.antt =====
-- src/server.rs and src/allocation.rs: how long an allocation lives, and what the client is told.
use miuturn.Common.{
  ℕ, ◌+◌, ◌-◌, ◌*◌, ◌<◌, ◌≡◌, refl, sym, ap, ◌∙◌, List, some, true, arith, be_u32, lt→ltb, Text,
  find, Bool, [], ◌∷◌, ◌++◌, ◌==◌,
}
use miuturn.Common.Map.{lookup, lookup-insert_self}
use miuturn.Net.{SocketAddr, SocketAddr-discrete}
use miuturn.Errors.{Result, ok}
use miuturn.Bandwidth.Limiter.{nanos}
use miuturn.Message.Types.{Message, Attribute}
use miuturn.Message.AttrType
use miuturn.Message.Codec.{get_attribute, add_attribute, encode}
use miuturn.Allocations.Table.{
  Allocation, AllocationTable, refresh_allocation, is_expired, remove_allocation, forget,
}
use miuturn.Allocations.Create.{Attempt, create_allocation, enter}
use miuturn.Server.Verify.{Verdict, verify_turn_auth, accepted}
use miuturn.Server.Preserves.{verify_turn_auth-tables}
use miuturn.Server.Branches.{option_case, bool_case}
use miuturn.Server.Integrity.{add_response_message_integrity}
use miuturn.Server.State.{Reply, reply, get_password_for_user, Externals, Moment, TurnServer}
use miuturn.Server.Handlers.{
  allocate_response, attribute, signed, clear_client, get_lifetime, allocate_for, handle_allocate,
}

-- The time of a refresh does not enter: an allocation that is refreshed for `lifetime` seconds is
-- expired as soon as these have passed since its creation, also right after the refresh.
pub refresh_counts_from_creation :
    (t : AllocationTable) (addr : SocketAddr) (a : Allocation) (lifetime now : ℕ)
    → lookup SocketAddr-discrete addr t.allocations ≡ some a
    → a.created_at + lifetime * nanos < now
    → (a' : Allocation) × (lookup SocketAddr-discrete addr
          (refresh_allocation t addr lifetime).0.allocations
        ≡ some a')
      × (is_expired a' now ≡ true)
unfolding refresh_allocation is_expired
refresh_counts_from_creation t addr a lifetime now there late =
    let a' : Allocation = record a { lifetime = lifetime * nanos } in
    (
      a',
      ground (arith, there, lookup-insert_self SocketAddr-discrete addr a' t.allocations),
      lt→ltb (lifetime * nanos) (now - a.created_at) (omega arith),
    )

find_first :
    (p : Attribute → Bool) (xs ys : List Attribute) (a : Attribute)
    → find p xs ≡ some a
    → find p (xs ++ ys) ≡ some a
find_first p [] ys a h = absurd (ground arith)
find_first p (x ∷ xs) ys a h = ground (arith, find_first p xs ys a, h)

module _ (ext : Externals) (server : TurnServer) (username : Text) (at : Moment) where
  -- The signature follows the other attributes.
  signed-lifetime :
      (response : Message) (a : Attribute)
      → get_attribute response AttrType.lifetime ≡ some a
      → get_attribute (signed ext server username at response) AttrType.lifetime ≡ some a
  unfolding signed add_response_message_integrity add_attribute get_attribute
  signed-lifetime response a has = bool_case IsTold server.auth_disabled has (
      option_case IsTold (get_password_for_user server username at.unix_secs) has (λ password.
        find_first (λ b. b.attr_type == AttrType.lifetime) response.attributes _ a has))
    where
      IsTold : Message → Type 0
      IsTold r = get_attribute r AttrType.lifetime ≡ some a

  allocate_response-lifetime :
      (msg : Message) (client relayed : SocketAddr) (lifetime : ℕ)
      → get_attribute (allocate_response ext server msg client relayed lifetime) AttrType.lifetime
        ≡ some (attribute AttrType.lifetime (be_u32 lifetime))
  unfolding allocate_response get_attribute
  allocate_response-lifetime msg client relayed lifetime = refl

clear_client-limit :
    (ext : Externals) (server : TurnServer) (client : SocketAddr)
    → (clear_client ext server client).allocation_table.max_allocation_duration_secs
      ≡ server.allocation_table.max_allocation_duration_secs
unfolding clear_client remove_allocation forget
clear_client-limit ext server client = ground arith

-- An allocation that is created is in the table, and lives for the maximum if that is smaller.
create_allocation-limit :
    (to_string : SocketAddr → Text) (t : AllocationTable) (world : ℕ → Attempt)
    (client : SocketAddr) (lifetime most : ℕ) (id : List ℕ) (relay now : ℕ) (a : Allocation)
    → t.max_allocation_duration_secs ≡ some most
    → most < lifetime
    → let (after, answer) =
        create_allocation to_string t world client (some lifetime) id relay now in
      answer ≡ ok a
      → (lookup SocketAddr-discrete a.relayed_addr after.allocations ≡ some a)
        × (a.lifetime ≡ most * nanos)
        × (a.created_at ≡ now)
unfolding create_allocation enter
create_allocation-limit to_string t world client lifetime most id relay now a limit less made = (
  ground
      (arith, limit, made, lookup-insert_self SocketAddr-discrete a.relayed_addr a t.allocations),
  ground (arith, limit, made),
  ground (arith, limit, made),
)

module _ (ext : Externals) (server server' : TurnServer) (msg : Message) (client : SocketAddr)
    (at : Moment) (username : Text) (lifetime : ℕ) (a : Allocation) where
  -- The table after the allocation, and its answer.
  abbrev allocated : AllocationTable × Result Allocation
  allocated =
      create_allocation ext.print_addr (clear_client ext server' client).allocation_table at.world
        client (some lifetime) at.id at.relay at.now

  abbrev after_allocate : TurnServer
  after_allocate = record (clear_client ext server' client) { allocation_table = allocated.0 }

  abbrev answer_of : Message
  answer_of =
      signed ext after_allocate username at
        (allocate_response ext after_allocate msg client a.relayed_addr lifetime)

  handle_allocate-ok :
      verify_turn_auth ext server msg client at ≡ (server', accepted username)
      → get_lifetime msg ≡ some lifetime
      → allocated.1 ≡ ok a
      → handle_allocate ext server msg client at ≡ (after_allocate, reply (encode answer_of))
  unfolding handle_allocate allocate_for
  handle_allocate-ok passed asked made = ground (arith, passed, asked, made)

-- An Allocate request that is accepted and gets an allocation is answered with the lifetime that it
-- asked for, in seconds, though the server has a smaller maximum: the allocation in the table has
-- that maximum, and is expired as soon as it has passed.
pub answers_more_than_granted :
    (ext : Externals) (server server' : TurnServer) (msg : Message) (client : SocketAddr)
    (at : Moment) (username : Text) (lifetime most : ℕ) (a : Allocation)
    → verify_turn_auth ext server msg client at ≡ (server', accepted username)
    → get_lifetime msg ≡ some lifetime
    → server.allocation_table.max_allocation_duration_secs ≡ some most
    → most < lifetime
    → (create_allocation ext.print_addr
        (clear_client ext server' client).allocation_table
        at.world
        client
        (some lifetime)
        at.id
        at.relay
        at.now).1
      ≡ ok a
    → let (after, answer) = handle_allocate ext server msg client at in
      (response : Message) × (answer ≡ reply (encode response))
      × (get_attribute response AttrType.lifetime
          ≡ some (attribute AttrType.lifetime (be_u32 lifetime)))
      × (lookup SocketAddr-discrete a.relayed_addr after.allocation_table.allocations ≡ some a)
      × (a.lifetime ≡ most * nanos)
      × ((later : ℕ) → at.now + most * nanos < later → is_expired a later ≡ true)
unfolding is_expired
answers_more_than_granted ext server server' msg client at username lifetime most a passed asked
      limit less made =
    let handled =
      handle_allocate-ok ext server server' msg client at username lifetime a passed asked made in
    let same : server'.allocation_table ≡ server.allocation_table =
      sym (ap (λ (v : TurnServer × Verdict). v.0.allocation_table) passed)
      ∙ (verify_turn_auth-tables ext msg client at server).0 in
    let limit' =
      clear_client-limit ext server' client
      ∙ (ap (λ (t : AllocationTable). t.max_allocation_duration_secs) same ∙ limit) in
    let (there, lives, since) =
      create_allocation-limit ext.print_addr (clear_client ext server' client).allocation_table
        at.world client lifetime most at.id at.relay at.now a limit' less made in
    let after = after_allocate ext server server' msg client at username lifetime a in
    (
      answer_of ext server server' msg client at username lifetime a,
      ap (λ (h : TurnServer × Reply). h.1) handled,
      signed-lifetime ext after username at _ _
          (allocate_response-lifetime ext after username at msg client a.relayed_addr lifetime),
      ap
            (λ (h : TurnServer × Reply).
              lookup SocketAddr-discrete a.relayed_addr h.0.allocation_table.allocations)
            handled
          ∙ there,
      lives,
      λ later late. lt→ltb a.lifetime (later - a.created_at) (omega (arith, lives, since, late)),
    )
