-- ===== src/PeerNetwork/Connecting.antt =====
-- lab3/network/TCP.go: the methods that make and drop connections, each as one step on the network.
-- A panic, and a search out of fuel, are `none`. What the run-time and the peers do is an argument:
-- `resolve` for `net.ResolveTCPAddr`, `dial` for `net.DialTCP`, and what a read of a connection gives.
use multi_paxos_work_in_prog.Common.{
  ℤ, int_eq, leb_ℤ, Bool, true, false, ◌&&◌, if◌then◌else◌, List, [], ◌∷◌, Option, none, some,
  ◌>>=◌, ◌⊎◌, inl, inr,
}
use multi_paxos_work_in_prog.Common.GoMap.{GoMap, lookup, insert, delete}
use multi_paxos_work_in_prog.Common.Text.{Text}
use multi_paxos_work_in_prog.PeerNetwork.{
  TcpAddr, Node, Network, Conn, NetError, already_connected, dial_failed,
}
use multi_paxos_work_in_prog.PeerNetwork.Addresses.{port_of, addr_string}
use multi_paxos_work_in_prog.PeerNetwork.Ports.{
  get_client_addr, remove_port, remove_used, with_ports,
}

abbrev pub Resolve : Type 0
Resolve = Text → Text → Option TcpAddr

abbrev pub Dial : Type 0
Dial = TcpAddr → Option TcpAddr → Option Conn

abbrev with_error : NetError → Network → Network × Option NetError
with_error e n = (n, some e)

-- What `ConnectToNode` does with what `getClientAddr` returns.
unfoldable pub dial_from :
    Dial → Network → Node → NetError ⊎ TcpAddr → Option (Network × Option NetError)
unfolding remove_port
dial_from dial n node (inl e) = remove_port none n >>= λ freed. some (with_error e freed)
dial_from dial n node (inr addr) =
    let freed = remove_port (some addr) n >>= λ freed. some (with_error dial_failed freed) in
    elim (dial addr node.addr) [
      | none ↦ freed
      | some conn ↦ some (record n { connections = insert node.id conn n.connections }, none)
    ]

unfoldable pub connect_to_node :
    Resolve → Dial → Network → Node → Option (Network × Option NetError)
unfolding get_client_addr dial_from
connect_to_node resolve dial n node =
    let dialled =
      get_client_addr resolve n >>= λ claimed. dial_from dial claimed.0 node claimed.1 in
    elim (lookup node.id n.connections) [
      | none ↦ dialled
      | some conn ↦ some (n, some already_connected)
    ]

-- The loop of `ConnectTCP` over the nodes; their errors are logged.
unfoldable pub connect_all : Resolve → Dial → Network → List Node → Option Network
unfolding connect_to_node
connect_all resolve dial n [] = some n
connect_all resolve dial n (node ∷ nodes) =
    connect_to_node resolve dial n node >>= λ tried. connect_all resolve dial tried.0 nodes

-- The loop of `CleanAndAttemptReconnect`, which passes over the nodes that are connected.
unfoldable pub reconnect_all : Resolve → Dial → Network → List Node → Option Network
unfolding connect_to_node
reconnect_all resolve dial n [] = some n
reconnect_all resolve dial n (node ∷ nodes) =
    let skipped = reconnect_all resolve dial n nodes in
    let tried =
      connect_to_node resolve dial n node >>= λ tried. reconnect_all resolve dial tried.0 nodes in
    elim (lookup node.id n.connections) [ none ↦ tried | some conn ↦ skipped ]

-- What a read of one byte gives in `ConnTerminated`. The read waits while nothing arrives: the call
-- of a method that reads is its whole run, with what did arrive.
pub data OneByte : Type 0 where
  at_eof read_failed got_byte : OneByte

unfoldable pub conn_terminated : OneByte → Bool
conn_terminated at_eof = true
conn_terminated read_failed = false
conn_terminated got_byte = false

-- The loop of `Clean` over the entries, in the order in which the run-time visits them.
unfoldable pub clean_from : (Conn → OneByte) → Network → GoMap ℤ Conn → Option Network
unfolding conn_terminated remove_port
clean_from incoming n [] = some n
clean_from incoming n ((key, conn) ∷ entries) =
    let kept = clean_from incoming n entries in
    let dropped = remove_port (some conn.local_addr) n >>= λ freed.
    clean_from incoming (record freed { connections = delete key freed.connections }) entries in
    if conn_terminated (incoming conn) then dropped else kept

-- `range` is the order in which the run-time visits the map.
unfoldable pub clean : (GoMap ℤ Conn → GoMap ℤ Conn) → (Conn → OneByte) → Network → Option Network
unfolding clean_from
clean range incoming n = clean_from incoming n (range n.connections)

unfoldable pub clean_and_attempt_reconnect :
    (GoMap ℤ Conn → GoMap ℤ Conn) → (Conn → OneByte) → Resolve → Dial → Network → Option Network
unfolding clean reconnect_all
clean_and_attempt_reconnect range incoming resolve dial n =
    clean range incoming n >>= λ cleaned. reconnect_all resolve dial cleaned cleaned.nodes

-- What a goroutine that read from the connection does at its end.
unfoldable pub cleanup_conn : Conn → ℤ → Network → Option Network
unfolding port_of addr_string remove_used with_ports
cleanup_conn conn node_id n =
    remove_used (port_of (addr_string (some conn.local_addr))).0 n.node_index.used_ports
    >>= λ ports. some (with_ports (record n { connections = delete node_id n.connections }) ports)

-- The loop of `RemoveDisconnected` over the entries.
unfoldable pub release_all : Network → GoMap ℤ Conn → Option Network
unfolding remove_port
release_all n [] = some n
release_all n ((key, conn) ∷ entries) =
    remove_port (some conn.local_addr) n >>= λ freed. release_all freed entries

unfoldable pub remove_disconnected : (GoMap ℤ Conn → GoMap ℤ Conn) → Network → Option Network
unfolding release_all
remove_disconnected range n =
    release_all n (range n.connections) >>= λ freed. some (record freed { connections = [] })

-- the first node whose client ports have the port
unfoldable pub node_with_port : ℤ → List Node → Option ℤ
node_with_port port [] = none
node_with_port port (node ∷ nodes) =
    let rest = node_with_port port nodes in
    if leb_ℤ node.client_port_min port && leb_ℤ port node.client_port_max
    then some node.id
    else rest

unfoldable pub node_id_of_text : ℤ × Bool → List Node → Option ℤ
unfolding node_with_port
node_id_of_text (port, true) nodes = node_with_port port nodes
node_id_of_text (port, false) nodes = none

-- `getNodeIdFromRemoteAddr`
unfoldable pub get_node_id : Text → Network → Option ℤ
unfolding port_of node_id_of_text
get_node_id remote n = node_id_of_text (port_of remote) n.nodes

-- A connection that the listener accepts, from the address `remote`: the node it is from, or none
-- for a client, and the network after it.
unfoldable pub accept_conn : Text → Conn → Network → Network × Option ℤ
unfolding get_node_id
accept_conn remote conn n = elim (get_node_id remote n) [
  | none ↦ (n, none)
  | some id ↦ (record n { connections = insert id conn n.connections }, some id)
]
