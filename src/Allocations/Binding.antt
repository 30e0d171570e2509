-- ===== src/Allocations/Binding.antt =====
-- src/allocation.rs, `AllocationTable::create_allocation`: what the loop that looks for a port does
-- to the ports.
use miuturn.Common.{
  ℕ, zero, suc, ◌+◌, ◌≡◌, refl, ap, sym, ◌∙◌, Option, none, some, Bool, true, ◌||◌, ◌==◌, inl, inr,
  Option-cases, arith, Text, subst, ==_refl,
}
use miuturn.Net.{SocketAddr}
use miuturn.Errors.{Result, ok, err, relay_port_exhausted}
use miuturn.Ports.Bitmap.{PortAllocator, allocate, release, is_allocated}
use miuturn.Ports.Allocator.{IsBitmap}
use miuturn.Ports.Outcome.{Takes, Frees, allocate-Takes, allocate-none, release-Frees}
use miuturn.Allocations.Table.{Ipv4Addr, socket_addr_v4}
use miuturn.Allocations.Create.{Attempt, bind_relay}

-- The same ports are allocated, of the same range.
pub record Unchanged (p p' : PortAllocator) : Type 0 where
  pub others : (q : ℕ) → is_allocated p' q ≡ is_allocated p q
  pub counts : p'.allocated_count ≡ p.allocated_count
  pub same_range : (p'.min_port ≡ p.min_port) × (p'.max_port ≡ p.max_port)
  pub sound : IsBitmap p'

pub Unchanged-refl : (p : PortAllocator) → IsBitmap p → Unchanged p p
Unchanged-refl p v = record {
  others = λ q. refl;
  counts = refl;
  same_range = (refl, refl);
  sound = v;
}

Unchanged-trans : {p m p' : PortAllocator} → Unchanged p m → Unchanged m p' → Unchanged p p'
Unchanged-trans a b = record {
  others = λ q. b.others q ∙ a.others q;
  counts = b.counts ∙ a.counts;
  same_range = (b.same_range.0 ∙ a.same_range.0, b.same_range.1 ∙ a.same_range.1);
  sound = b.sound;
}

Takes-after :
    {p m p' : PortAllocator} {port : ℕ} → Unchanged p m → Takes m port p' → Takes p port p'
Takes-after {p} {m} {p'} {port} a t = record {
  inside = omega (arith, a.same_range, t.inside);
  was_free = sym (a.others port) ∙ t.was_free;
  others = λ q. t.others q ∙ ap (λ b. q == port || b) (a.others q);
  counts = omega (arith, t.counts, a.counts);
  same_range = (t.same_range.0 ∙ a.same_range.0, t.same_range.1 ∙ a.same_range.1);
  sound = t.sound;
}

given_back :
    {p m : PortAllocator} {port : ℕ} {r : PortAllocator × Bool}
    → Takes p port m
    → Frees m port r
    → Unchanged p (r.0)
given_back {p} {m} {port} {r} t f =
    let here : is_allocated m port ≡ true =
      t.others port ∙ ap (λ b. b || is_allocated p port) (==_refl port) in
    record {
      others = λ q.
          ground
            (arith, f.others q, t.others q, t.was_free, λ (e : q ≡ port). ap (is_allocated p) e);
      counts = ground (arith, f.counts, here, t.counts);
      same_range = (f.same_range.0 ∙ t.same_range.0, f.same_range.1 ∙ t.same_range.1);
      sound = f.sound;
    }

-- What the loop promises: the port it answers is taken, and after an error none is.
abbrev pub Promises : PortAllocator → PortAllocator × Result ℕ → Type 0
Promises p (p', ok port) = Takes p port p'
Promises p (p', err e) = Unchanged p p'

Promises-after :
    (p m : PortAllocator) (r : PortAllocator × Result ℕ)
    → Unchanged p m
    → Promises m r
    → Promises p r
Promises-after p m (p', ok port) a t = Takes-after a t
Promises-after p m (p', err e) a t = Unchanged-trans a t

module _ (bind : Ipv4Addr) (world : ℕ → Attempt) (p : PortAllocator) (left attempts : ℕ)
    (last : Option (SocketAddr × Text)) where
  round : PortAllocator × Option ℕ
  round = allocate p (world attempts).draw_1 (world attempts).draw_2

  no_port :
      round.1 ≡ none
      → bind_relay bind world p (suc left) attempts last ≡ (round.0, err relay_port_exhausted)
  unfolding bind_relay round
  no_port q = ground (arith, q)

  bound :
      (port : ℕ)
      → round.1 ≡ some port
      → (world attempts).failure ≡ none
      → bind_relay bind world p (suc left) attempts last ≡ (round.0, ok port)
  unfolding bind_relay round
  bound port q b = ground (arith, q, b)

  not_bound :
      (port : ℕ) (source : Text)
      → round.1 ≡ some port
      → (world attempts).failure ≡ some source
      → bind_relay bind world p (suc left) attempts last
        ≡ bind_relay bind world
            (release round.0 port).0
            left
            (attempts + 1)
            (some (socket_addr_v4 bind port, source))
  unfolding bind_relay round
  not_bound port source q b = ground (arith, q, b)

-- However the attempts to bind a socket end, the loop either takes exactly the port that it
-- answers, or returns an error and leaves every port as it was.
pub bind_relay-Promises :
    (bind : Ipv4Addr) (world : ℕ → Attempt) (p : PortAllocator) (left attempts : ℕ)
    (last : Option (SocketAddr × Text))
    → IsBitmap p
    → Promises p (bind_relay bind world p left attempts last)
unfolding round
bind_relay-Promises bind world p zero attempts last v = unfold bind_relay in Unchanged-refl p v
bind_relay-Promises bind world p (suc left) attempts last v =
    let d : Attempt = world attempts in
    let r : PortAllocator × Option ℕ = allocate p d.draw_1 d.draw_2 in
    elim (Option-cases r.1) [
      | inl q ↦
          let same = (allocate-none p d.draw_1 d.draw_2 v q).0 in
          subst (Promises p) (sym (no_port bind world p left attempts last q))
            (subst (Unchanged p) (sym same) (Unchanged-refl p v))
      | inr (port, q) ↦
          let t = allocate-Takes p d.draw_1 d.draw_2 port v q in
          elim (Option-cases d.failure) [
            | inl b ↦ subst (Promises p) (sym (bound bind world p left attempts last port q b)) t
            | inr (source, b) ↦
                let back = given_back t (release-Frees r.0 port t.sound) in
                let again = some (socket_addr_v4 bind port, source) in
                let rest =
                  bind_relay-Promises bind world (release r.0 port).0 left (attempts + 1) again
                    back.sound in
                subst (Promises p) (sym (not_bound bind world p left attempts last port source q b))
                  (Promises-after p (release r.0 port).0 _ back rest)
          ]
    ]
