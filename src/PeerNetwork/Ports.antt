-- ===== src/PeerNetwork/Ports.antt =====
-- lab3/network/TCP.go: the client ports of a node. `getClientAddr` takes the first free one,
-- `RemovePort` and `cleanupConn` give it back. A panic, and a search out of fuel, are `none`.
pub mod Removing
pub mod Searching
use multi_paxos_work_in_prog.Common.{
  ℕ, zero, suc, ◌+◌, ◌-◌, leb, ltb_ℤ, leb_ℤ, ◌-ℤ◌, pos_part, ◌==◌, int_eq, ℤ, pos, negsuc, Bool,
  true, false, ◌||◌, if◌then◌else◌, List, [], ◌∷◌, ◌++◌, length, take, drop, get_elem?, Option,
  none, some, ◌>>=◌, ◌⊎◌, inl, inr,
}
use multi_paxos_work_in_prog.Common.Int.{add_int}
use multi_paxos_work_in_prog.Common.Text.{Text, codes, show_int}
use multi_paxos_work_in_prog.PeerNetwork.{
  TcpAddr, colon, Node, Network, NetError, no_client_port, unresolved,
}
use multi_paxos_work_in_prog.PeerNetwork.Addresses.{port_of, addr_string}

-- the loop over the used ports that sets `inUsedPorts`
unfoldable pub is_used : ℤ → List ℤ → Bool
is_used i [] = false
is_used i (port ∷ ports) = (port == i) || is_used i ports

-- The loop from the lowest to the highest port: the free one at which it breaks, if any.
unfoldable pub find_port : ℕ → ℤ → ℤ → List ℤ → Option (Option ℤ)
unfolding is_used
find_port zero i max used = none
find_port (suc fuel) i max used =
    let rest = find_port fuel (add_int i (pos 1)) max used in
    if leb_ℤ i max then if is_used i used then rest else some (some i) else some none

-- One more than the ports of the node, for the test that ends the loop, and one to be above it.
unfoldable pub port_fuel : Node → ℕ
unfolding ◌-ℤ◌
port_fuel node = suc (suc (pos_part (node.client_port_max -ℤ node.client_port_min)))

unfoldable pub with_ports : Network → List ℤ → Network
with_ports n ports = record n { node_index = record n.node_index { used_ports = ports } }

-- `IP.String()`
unfoldable pub ip_string : Option Text → Text
ip_string none = codes "<nil>"
ip_string (some ip) = ip

unfoldable pub resolved : Option TcpAddr → NetError ⊎ TcpAddr
resolved none = inl unresolved
resolved (some addr) = inr addr

-- The address to dial from at the port that the loop found.
-- A node without an own address makes it panic where it has a port.
unfoldable pub use_port :
    (Text → Text → Option TcpAddr) → Option TcpAddr → ℤ → Option (NetError ⊎ TcpAddr)
unfolding ip_string show_int resolved
use_port resolve own port =
    if ltb_ℤ (negsuc 0) port
    then (own >>= λ addr.
        some (resolved (resolve (codes "tcp") (ip_string addr.ip ++ colon ∷ show_int port))))
    else some (inl no_client_port)

unfoldable pub get_client_addr :
    (Text → Text → Option TcpAddr) → Network → Option (Network × (NetError ⊎ TcpAddr))
unfolding find_port port_fuel with_ports use_port
get_client_addr resolve n =
    find_port (port_fuel n.node_index) n.node_index.client_port_min n.node_index.client_port_max
      n.node_index.used_ports
    >>= λ found. elim found [
      | none ↦ some (n, inl no_client_port)
      | some port ↦ use_port resolve n.node_index.addr port >>= λ addr.
          some (with_ports n (n.node_index.used_ports ++ port ∷ []), addr)
    ]

-- `append(ports[:i], ports[i+1:]...)` on the array below a slice of the length `len`: the ports
-- behind `i` move down by one, and the array keeps its last place.
unfoldable pub close_gap : List ℤ → ℕ → ℕ → List ℤ
close_gap array len i = take i array ++ drop (suc i) (take len array) ++ drop (len - 1) array

-- The loop over the places of the array from `i` on, of which `left` are to come. The slice that it
-- started with keeps its length while `UsedPorts`, of the length `len`, gets shorter on the same
-- array. It panics where `i` is not below `len`.
unfoldable pub remove_from : ℕ → ℕ → ℤ → List ℤ → ℕ → Option (List ℤ)
unfolding close_gap
remove_from zero i port array len = some (take len array)
remove_from (suc left) i port array len =
    let removed = remove_from left (suc i) port (close_gap array len i) (len - 1) in
    let kept = remove_from left (suc i) port array len in
    get_elem? array i >>= λ used.
    if port == used then if leb (suc i) len then removed else none else kept

unfoldable pub remove_used : ℤ → List ℤ → Option (List ℤ)
unfolding remove_from
remove_used port ports = remove_from (length ports) 0 port ports (length ports)

-- The error of `strconv.Atoi` is dropped: a text without a port stands for port 0.
unfoldable pub remove_port : Option TcpAddr → Network → Option Network
unfolding port_of addr_string remove_used with_ports
remove_port addr n = remove_used (port_of (addr_string addr)).0 n.node_index.used_ports >>= λ ports.
    some (with_ports n ports)
