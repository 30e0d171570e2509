-- ===== src/Allocations/Ownership.antt =====
-- src/allocation.rs, `AllocationTable`: the ports that are allocated are those of the allocations.
use miuturn.Common.{
  ℕ, ◌+◌, ◌≡◌, refl, ap, sym, ◌∙◌, List, Option, none, some, Bool, true, false, All, arith, length,
}
use miuturn.Common.Map.{
  IsMap, lookup, insert, remove, lookup-insert, lookup-remove, All-insert, All-remove, insert-IsMap,
  remove-IsMap, length-insert_new, All-lookup,
}
use miuturn.Net.{SocketAddr, SocketAddr-discrete, port}
use miuturn.Ports.Bitmap.{PortAllocator, release, is_allocated}
use miuturn.Ports.Allocator.{IsBitmap}
use miuturn.Ports.Outcome.{Takes, release-Frees}
use miuturn.Allocations.Table.{Allocation, Ipv4Addr, socket_addr_v4}
use miuturn.Allocations.Binding.{Unchanged}

abbrev pub present : {A : Type 0} → Option A → Bool
present none = false
present (some a) = true

-- Whether an allocation has the port as its relay port.
abbrev pub held : Ipv4Addr → List (SocketAddr × Allocation) → ℕ → Bool
held external allocations q =
    present (lookup SocketAddr-discrete (socket_addr_v4 external q) allocations)

abbrev pub IsRelay : Ipv4Addr → SocketAddr × Allocation → Type 0
IsRelay external (addr, a) = (socket_addr_v4 external (port addr) ≡ addr) × (a.relayed_addr ≡ addr)

-- Each address once, with an allocation of that address, and exactly their ports are allocated.
pub record Owns (external : Ipv4Addr) (allocations : List (SocketAddr × Allocation))
    (p : PortAllocator) : Type 0 where
  pub once : IsMap allocations
  pub keys : All (IsRelay external) allocations
  pub bitmap : IsBitmap p
  pub owned : (q : ℕ) → is_allocated p q ≡ held external allocations q

module _ (external : Ipv4Addr) (m : List (SocketAddr × Allocation)) (p p' : PortAllocator)
    (o : Owns external m p) where
  pub Owns-Unchanged : Unchanged p p' → Owns external m p'
  Owns-Unchanged u = record {
    once = o.once;
    keys = o.keys;
    bitmap = u.sound;
    owned = λ q. u.others q ∙ o.owned q;
  }

  not_held :
      (q : ℕ)
      → is_allocated p q ≡ false
      → lookup SocketAddr-discrete (socket_addr_v4 external q) m ≡ none
  not_held q e = ground (arith, o.owned q, e)

  module _ (q : ℕ) (a : Allocation) (r : a.relayed_addr ≡ socket_addr_v4 external q)
      (t : Takes p q p') where
    addr : SocketAddr
    addr = a.relayed_addr

    pub Owns-insert : Owns external (insert SocketAddr-discrete a.relayed_addr a m) p'
    Owns-insert = record {
      once = insert-IsMap SocketAddr-discrete a.relayed_addr a m o.once;
      keys =
          All-insert SocketAddr-discrete (IsRelay external) a.relayed_addr a m
            (ap (λ x. socket_addr_v4 external (port x)) r ∙ sym r, refl) o.keys;
      bitmap = t.sound;
      owned = λ i. ground (
        arith,
        t.others i,
        o.owned i,
        r,
        lookup-insert SocketAddr-discrete a.relayed_addr (socket_addr_v4 external i) a m,
        λ (e : a.relayed_addr ≡ socket_addr_v4 external i). ap port (sym r ∙ e),
        λ (e : i ≡ q). ap (socket_addr_v4 external) e,
      );
    }

    pub length-enter : length (insert SocketAddr-discrete a.relayed_addr a m) ≡ length m + 1
    length-enter =
        length-insert_new SocketAddr-discrete a.relayed_addr a m
          (ap (λ x. lookup SocketAddr-discrete x m) r ∙ not_held q t.was_free)

module _ (external : Ipv4Addr) (m : List (SocketAddr × Allocation)) (p : PortAllocator)
    (o : Owns external m p) (addr : SocketAddr) (a : Allocation)
    (found : lookup SocketAddr-discrete addr m ≡ some a) where
  key : IsRelay external (addr, a)
  key = All-lookup SocketAddr-discrete (IsRelay external) addr a m o.keys found

  pub Owns-remove : Owns external (remove SocketAddr-discrete addr m) (release p (port addr)).0
  Owns-remove =
      let f = release-Frees p (port addr) o.bitmap in
      record {
        once = remove-IsMap SocketAddr-discrete addr m o.once;
        keys = All-remove SocketAddr-discrete (IsRelay external) addr m o.keys;
        bitmap = f.sound;
        owned = λ i. ground (
          arith,
          f.others i,
          o.owned i,
          key.0,
          lookup-remove SocketAddr-discrete addr (socket_addr_v4 external i) m,
          λ (e : addr ≡ socket_addr_v4 external i). ap port e,
          λ (e : i ≡ port addr). ap (socket_addr_v4 external) e,
        );
      }

  pub Owns-replace :
      (a' : Allocation)
      → a'.relayed_addr ≡ a.relayed_addr
      → Owns external (insert SocketAddr-discrete addr a' m) p
  Owns-replace a' same = record {
    once = insert-IsMap SocketAddr-discrete addr a' m o.once;
    keys = All-insert SocketAddr-discrete (IsRelay external) addr a' m (key.0, same ∙ key.1) o.keys;
    bitmap = o.bitmap;
    owned = λ i. ground (
      arith,
      o.owned i,
      found,
      lookup-insert SocketAddr-discrete addr (socket_addr_v4 external i) a' m,
      λ (e : addr ≡ socket_addr_v4 external i). ap (λ x. lookup SocketAddr-discrete x m) e,
    );
  }
