-- ===== src/Server/Clients.antt =====
-- src/server.rs and src/allocation.rs: the allocations, their clients and their channels.
use miuturn.Common.{
  ℕ, ◌≡◌, ◌≢◌, refl, ap, sym, ◌∙◌, subst, List, [], Option, none, some, true, false, inl, inr,
  Bool-cases, arith,
}
use miuturn.Common.Map.{
  IsMap, lookup, insert, remove, lookup-insert, lookup-remove, find-some, find-none,
}
use miuturn.Net.{SocketAddr, SocketAddr-discrete}
use miuturn.Channels.Table
use miuturn.Channels.Table.{
  ChannelTable, ChannelBinding, Key-discrete, same, get_by_channel, bind, remove_for_relayed,
  cleanup_expired,
}
use miuturn.Channels.Laws.{
  IsValid, get_by_channel-bind, get_by_channel-remove_for_relayed, get_by_channel-cleanup_expired,
}
use miuturn.Allocations.Table.{Allocation}
use miuturn.Allocations.Permissions.{Entry, of_client}

abbrev pub allocation_at : SocketAddr → List Entry → Option Allocation
allocation_at addr m = lookup SocketAddr-discrete addr m

-- No client has two allocations, and every channel belongs to an allocation that exists.
pub record Linked (m : List Entry) (channels : ChannelTable) : Type 0 where
  pub single :
      (addr addr' : SocketAddr) (a a' : Allocation)
      → allocation_at addr m ≡ some a
      → allocation_at addr' m ≡ some a'
      → a.client_addr ≡ a'.client_addr
      → addr ≡ addr'
  pub live :
      (r : SocketAddr) (c : ℕ) (b : ChannelBinding)
      → get_by_channel channels r c ≡ some b
      → allocation_at r m ≢ none

-- No allocation belongs to the client.
abbrev pub IsFree : SocketAddr → List Entry → Type 0
IsFree client m =
    (addr : SocketAddr) (a : Allocation) → allocation_at addr m ≡ some a → a.client_addr ≢ client

pub Linked-new : Linked [] Table.new
unfolding get_by_channel Table.new
Linked-new = record {
  single = λ x y a b hx hy e. absurd (ground (arith, hx));
  live = λ r c b h. absurd (ground (arith, h));
}

same_lem : (a b : SocketAddr) → same a b ≡ true → a ≡ b
same_lem a b e = ground arith

same_refl : (a b : SocketAddr) → same a b ≡ false → a ≢ b
same_refl a b e = ground arith

pub of_client-some :
    (client addr : SocketAddr) (a : Allocation) (m : List Entry)
    → IsMap m
    → of_client client m ≡ some (addr, a)
    → (allocation_at addr m ≡ some a) × (a.client_addr ≡ client)
unfolding of_client
of_client-some client addr a m v e =
    let (there, passed) =
      find-some SocketAddr-discrete (λ x. same x.1.client_addr client) addr a m v e in
    (there, same_lem a.client_addr client passed)

pub of_client-none :
    (client : SocketAddr) (m : List Entry) → of_client client m ≡ none → IsFree client m
unfolding of_client
of_client-none client m e addr a l =
    same_refl a.client_addr client
      (find-none SocketAddr-discrete (λ x. same x.1.client_addr client) addr a m e l)

module _ (m : List Entry) (channels : ChannelTable) (v : Linked m channels) where
  module _ (addr : SocketAddr) (a a' : Allocation) (there : allocation_at addr m ≡ some a)
      (e : a'.client_addr ≡ a.client_addr) where
    before_replace :
        (x : SocketAddr) (b : Allocation)
        → allocation_at x (insert SocketAddr-discrete addr a' m) ≡ some b
        → (b' : Allocation) × (allocation_at x m ≡ some b') × (b'.client_addr ≡ b.client_addr)
    before_replace x b h =
        let law = lookup-insert SocketAddr-discrete addr x a' m in
        elim (SocketAddr-discrete addr x) [
          | yes q ↦
              let at_x : allocation_at x m ≡ some a = ap (λ y. allocation_at y m) (sym q) ∙ there in
              let new : a' ≡ b = ground (arith, law, q, h) in
              (a, at_x, sym e ∙ ap (λ (z : Allocation). z.client_addr) new)
          | no n ↦ (b, ground (arith, law, n, h), refl)
        ]

    pub Linked-replace : Linked (insert SocketAddr-discrete addr a' m) channels
    Linked-replace = record {
      single = λ x y b c hx hy q.
          let (b', kx, ex) = before_replace x b hx in
          let (c', ky, ey) = before_replace y c hy in v.single x y b' c' kx ky (ex ∙ (q ∙ sym ey));
      live = λ r c b h gone.
          v.live r c b h (ground (arith, lookup-insert SocketAddr-discrete addr r a' m, gone));
    }

  pub Linked-insert :
      (addr : SocketAddr) (a : Allocation)
      → IsFree a.client_addr m
      → Linked (insert SocketAddr-discrete addr a m) channels
  Linked-insert addr a free =
      let at = λ (x : SocketAddr). lookup-insert SocketAddr-discrete addr x a m in
      record {
        single = λ x y b c hx hy q. ground (
          arith,
          at x,
          at y,
          hx,
          hy,
          q,
          v.single x y b c,
          λ (h : allocation_at x m ≡ some b) (k : b.client_addr ≡ a.client_addr). free x b h k,
          λ (h : allocation_at y m ≡ some c) (k : c.client_addr ≡ a.client_addr). free y c h k,
        );
        live = λ r c b h gone. v.live r c b h (ground (arith, at r, gone));
      }

  pub Linked-remove :
      (addr : SocketAddr)
      → IsValid channels
      → Linked (remove SocketAddr-discrete addr m) (remove_for_relayed channels addr).0
  Linked-remove addr w =
      let at = λ (x : SocketAddr). lookup-remove SocketAddr-discrete addr x m in
      record {
        single = λ x y b c hx hy q.
            v.single x y b c (ground (arith, at x, hx)) (ground (arith, at y, hy)) q;
        live = λ r c b h gone.
            let cleared = (get_by_channel-remove_for_relayed channels addr r c w).0 in
            elim (Bool-cases (same r addr)) [
              | inl e ↦ absurd (ground (arith, cleared, e, h))
              | inr e ↦
                  v.live r c b (ground (arith, cleared, e, h))
                    (ground (arith, at r, gone, e, λ (q : addr ≡ r). same_refl r addr e (sym q)))
            ];
      }

  pub Linked-bind :
      (c : ℕ) (peer addr : SocketAddr) (now : ℕ)
      → allocation_at addr m ≢ none
      → Linked m (bind channels c peer addr now).0
  Linked-bind c peer addr now there = record {
    single = v.single;
    live = λ r d b h.
        let after = (get_by_channel-bind channels c d peer addr r now).1 in
        elim (Key-discrete (addr, c) (r, d)) [
          | yes e ↦ subst (λ x. allocation_at x m ≢ none) (ap (λ k. k.0) e) there
          | no n ↦ v.live r d b (ground (arith, after, n, h))
        ];
  }

  pub Linked-cleanup_expired :
      (now : ℕ) → IsValid channels → Linked m (cleanup_expired channels now).0
  Linked-cleanup_expired now w = record {
    single = v.single;
    live = λ r c b h.
        let after = (get_by_channel-cleanup_expired channels now r c w).0 in
        v.live r c b (ground (arith, after, h));
  }

  pub IsFree-remove :
      (addr : SocketAddr) (a : Allocation)
      → allocation_at addr m ≡ some a
      → IsFree a.client_addr (remove SocketAddr-discrete addr m)
  IsFree-remove addr a there x b h e =
      let law = lookup-remove SocketAddr-discrete addr x m in
      let kept : allocation_at x m ≡ some b = ground (arith, law, h) in
      ground (arith, law, h, v.single addr x a b there kept (sym e))
