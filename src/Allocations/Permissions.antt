-- ===== src/Allocations/Permissions.antt =====
-- src/allocation.rs, `AllocationTable`: the searches by client, the permissions, and the relaying
-- towards a peer. The first allocation of a client, in the order of iteration, is the one used.
use miuturn.Common.{
  ◌≡◌, ap, List, [], ◌∷◌, Option, none, some, Bool, true, false, ◌||◌, ◌&&◌, find, inl, inr,
  Bool-cases, arith, if◌then◌else◌,
}
use miuturn.Net.{IpAddr, IpAddr-discrete, SocketAddr, ip}
use miuturn.Channels.Table.{same}
use miuturn.Allocations.Table.{Allocation, AllocationTable}

abbrev pub Entry : Type 0
Entry = SocketAddr × Allocation

unfoldable pub of_client : SocketAddr → List Entry → Option Entry
of_client client_addr m = find (λ e. same e.1.client_addr client_addr) m

unfoldable pub find_allocation_by_client : AllocationTable → SocketAddr → Option SocketAddr
unfolding of_client
find_allocation_by_client t client_addr = elim (of_client client_addr t.allocations) [
  | none ↦ none
  | some (addr, a) ↦ some a.relayed_addr
]

unfoldable pub get_allocation_by_client : AllocationTable → SocketAddr → Option Allocation
unfolding of_client
get_allocation_by_client t client_addr = elim (of_client client_addr t.allocations) [
  | none ↦ none
  | some (addr, a) ↦ some a
]

-- Membership and insertion in the set of addresses.
abbrev pub same_ip : IpAddr → IpAddr → Bool
same_ip a b = elim (IpAddr-discrete a b) [ yes e ↦ true | no e ↦ false ]

abbrev pub contains : List IpAddr → IpAddr → Bool
contains [] a = false
contains (b ∷ s) a = same_ip b a || contains s a

abbrev pub permit : List SocketAddr → List IpAddr → List IpAddr
permit [] s = s
permit (peer ∷ peers) s = permit peers (if contains s (ip peer) then s else ip peer ∷ s)

-- Whether one of the peers has the address.
abbrev pub names : List SocketAddr → IpAddr → Bool
names [] a = false
names (peer ∷ peers) a = same_ip (ip peer) a || names peers a

unfoldable pub permit_first : SocketAddr → List SocketAddr → List Entry → List Entry × Bool
permit_first client_addr peers [] = ([], false)
permit_first client_addr peers ((addr, a) ∷ m) =
    let (later, found) = permit_first client_addr peers m in
    if same a.client_addr client_addr
    then ((addr, record a { permissions = permit peers a.permissions }) ∷ m, true)
    else ((addr, a) ∷ later, found)

unfoldable pub add_permissions :
    AllocationTable → SocketAddr → List SocketAddr → AllocationTable × Bool
unfolding permit_first
add_permissions t client_addr peers =
    let (m, found) = permit_first client_addr peers t.allocations in
    (record t { allocations = m }, found)

abbrev pub permitted : Option Entry → SocketAddr → Bool
permitted none peer = false
permitted (some (addr, a)) peer = contains a.permissions (ip peer)

unfoldable pub check_permission : AllocationTable → SocketAddr → SocketAddr → Bool
unfolding of_client
check_permission t client_addr peer = permitted (of_client client_addr t.allocations) peer

contains-permit :
    (peers : List SocketAddr) (s : List IpAddr) (a : IpAddr)
    → contains (permit peers s) a ≡ (contains s a || names peers a)
contains-permit [] s a = ground arith
contains-permit (peer ∷ peers) s a = elim (Bool-cases (contains s (ip peer))) [
  | inl e ↦ ground (arith, e, contains-permit peers s a, λ (q : ip peer ≡ a). ap (contains s) q)
  | inr e ↦ ground (arith, e, contains-permit peers (ip peer ∷ s) a)
]

-- What a list of entries permits after `permit_first`.
permitted_after :
    (client_addr : SocketAddr) (peers : List SocketAddr) (m : List Entry) (other peer : SocketAddr)
    → permitted (of_client other (permit_first client_addr peers m).0) peer ≡ (
        permitted (of_client other m) peer
        || (same client_addr other
            && ((permit_first client_addr peers m).1 && names peers (ip peer))))
unfolding of_client permit_first
permitted_after client_addr peers [] other peer = ground arith
permitted_after client_addr peers ((addr, a) ∷ m) other peer = ground (
  arith,
  permitted_after client_addr peers m other peer,
  contains-permit peers a.permissions (ip peer),
)

-- After `add_permissions`, a client may send to a peer exactly if it could before, or if it is the
-- client named, the call found its allocation, and a peer of the call has the same IP address,
-- whatever its port.
pub check_permission-add_permissions :
    (t : AllocationTable) (client_addr : SocketAddr) (peers : List SocketAddr)
    (other peer : SocketAddr)
    → check_permission (add_permissions t client_addr peers).0 other peer ≡ (
        check_permission t other peer
        || (same client_addr other
            && ((add_permissions t client_addr peers).1 && names peers (ip peer))))
unfolding check_permission add_permissions
check_permission-add_permissions t client_addr peers other peer =
    permitted_after client_addr peers t.allocations other peer
