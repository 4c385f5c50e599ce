-- ===== src/PeerNetwork/Peers.antt =====
-- lab3/network/TCP.go: two nodes of one configuration, of which one dials the other.
use multi_paxos_work_in_prog.Common.{
  ℤ, pos, negsuc, int_eq, ◌<ℤ◌, ◌≤ℤ◌, List, [], ◌∷◌, ◌++◌, All, All-own, All-map, In, All-In, none,
  some, ◌≡◌, ◌≢◌, refl, arith, ap, sym, subst, ◌∙◌, Option-cases, inl, inr,
}
use multi_paxos_work_in_prog.Common.Int.{InRange}
use multi_paxos_work_in_prog.Common.GoMap.{insert}
use multi_paxos_work_in_prog.Common.Text.{Text, codes, show_int}
use multi_paxos_work_in_prog.PeerNetwork.{
  TcpAddr, colon, Conn, NodeConfig, ConfigInstance, Network, start_network, init_network,
}
use multi_paxos_work_in_prog.PeerNetwork.Addresses.{addr_string, port_of-addr_string}
use multi_paxos_work_in_prog.PeerNetwork.Ports.{get_client_addr, resolved, ip_string, with_ports}
use multi_paxos_work_in_prog.PeerNetwork.Connecting.{
  Resolve, node_with_port, node_id_of_text, get_node_id, accept_conn,
}
use multi_paxos_work_in_prog.PeerNetwork.Configuring.{
  HasRange, init_network-Healthy, init_network-add_nodes,
}
use multi_paxos_work_in_prog.PeerNetwork.Healthy.{Holds, IsHealthy}
use multi_paxos_work_in_prog.PeerNetwork.Claims.{FirstFree-usable, KeepsPort, get_client_addr_first}
use multi_paxos_work_in_prog.PeerNetwork.Runs.{Event, run, run-Healthy}
use multi_paxos_work_in_prog.PeerNetwork.Recognising.{HasPort, add_nodes_found}

-- No port is in the ranges of two nodes.
abbrev pub Separate : List NodeConfig → Type 0
Separate cs =
    (port : ℤ) (c d : NodeConfig)
    → In c cs
    → In d cs
    → HasPort port c
    → HasPort port d
    → c.id ≡ d.id

-- Every address of the configuration resolves.
abbrev pub Resolves : Resolve → ConfigInstance → Type 0
Resolves resolve config =
    (c : NodeConfig)
    → In c config.nodes
    → (addr : TcpAddr) × (resolve config.transport_proto (c.ip ++ colon ∷ show_int c.server_port)
        ≡ some addr)

no_nodes : (port : ℤ) → node_with_port port [] ≡ none
unfolding node_with_port
no_nodes port = refl

pub accept_known :
    (text : Text) (conn : Conn) (m : Network) (id : ℤ)
    → get_node_id text m ≡ some id
    → accept_conn text conn m ≡ (record m { connections = insert id conn m.connections }, some id)
unfolding accept_conn
accept_known text conn m id e = rw (e, accept_conn) refl

get_node_id-port :
    (addr : TcpAddr) (port : ℤ) (m : Network)
    → addr.port ≡ port
    → pos 0 ≤ℤ port
    → InRange port
    → get_node_id (addr_string (some addr)) m ≡ node_with_port port m.nodes
unfolding get_node_id node_id_of_text
get_node_id-port addr (pos port) m e from range =
    ap (λ r. node_id_of_text r m.nodes) (port_of-addr_string addr port e (omega arith))
get_node_id-port addr (negsuc port) m e from range = absurd (omega arith)

-- The address that `getClientAddr` returns has a port of the node's entry.
dialled_port :
    (resolve : Resolve) (c : NodeConfig) (n after : Network) (addr : TcpAddr)
    → KeepsPort resolve
    → pos 0 <ℤ c.client_port_min
    → IsHealthy c n
    → get_client_addr resolve n ≡ some (after, inr addr)
    → HasPort addr.port c × InRange addr.port
unfolding resolved
dialled_port resolve c n after addr keeps low h e =
    elim (get_client_addr_first resolve c n h (omega arith)) [
      | inl (full, none_left) ↦ absurd (cc (e, none_left))
      | inr (port, f, found) ↦
          let text = ip_string h.own.ip in
          let claimed = with_ports n (n.node_index.used_ports ++ port ∷ []) in
          elim (Option-cases (resolve (codes "tcp") (text ++ colon ∷ show_int port))) [
            | inl unknown ↦
                let failed = found ∙ ap (λ r. some (claimed, resolved r)) unknown in
                absurd (cc (e, failed))
            | inr (given, known) ↦
                let ended = found ∙ ap (λ r. some (claimed, resolved r)) known in
                let same : given ≡ addr = cc (e, ended) in
                let (from_0, range) = FirstFree-usable c n port low h f in
                let at_port : addr.port ≡ port =
                  subst (λ a. a.port ≡ port) same (keeps text port given from_0 range known) in
                subst (λ p. HasPort p c × InRange p) (sym at_port) ((f.from_low, f.to_high), range)
          ]
    ]

-- A configuration whose addresses resolve, whose ranges of client ports are `int`s above 0 and apart
-- from each other, and a resolution that keeps the port: whatever node `a`, not node 0, has done
-- since it was made, when `getClientAddr` gives it an address to dial from, node `b`, a different
-- one made from the same configuration, takes a connection from that address for one of node `a`,
-- whatever other connections it has by then.
pub peer_recognised :
    (resolve : Resolve) (config : ConfigInstance) (a b : ℤ) (first second : Network)
    (es : List Event) (n after : Network) (addr : TcpAddr) (m : Network) (conn : Conn)
    → All HasRange config.nodes
    → All (λ c. pos 0 <ℤ c.client_port_min) config.nodes
    → Separate config.nodes
    → Resolves resolve config
    → KeepsPort resolve
    → a ≢ pos 0
    → a ≢ b
    → init_network resolve config a ≡ some first
    → run first es ≡ some n
    → get_client_addr resolve n ≡ some (after, inr addr)
    → init_network resolve config b ≡ some second
    → m.nodes ≡ second.nodes
    → accept_conn (addr_string (some addr)) conn m
      ≡ (record m { connections = insert a conn m.connections }, some a)
peer_recognised resolve config a b first second es n after addr m conn ranges low apart resolves
      keeps not_0 differ made ran given other nodes =
    let (c, i, id, h) = init_network-Healthy resolve config a first ranges not_0 made in
    let healthy = subst (λ o. Holds (IsHealthy c) o) ran (run-Healthy c first es h) in
    let above = All-In (λ d. pos 0 <ℤ d.client_port_min) config.nodes c low i in
    let (has, range) = dialled_port resolve c n after addr keeps above healthy given in
    let (server, known) = resolves c i in
    let foreign : c.id ≢ b = λ e. differ (sym id ∙ e) in
    let belongs =
      All-map (λ d. In d config.nodes) (λ d. HasPort addr.port d → d.id ≡ a)
        (λ d j has'. apart addr.port d c j i has' has ∙ id) config.nodes (All-own config.nodes) in
    let found =
      add_nodes_found resolve b addr.port a (start_network config) config.nodes c server i known
        foreign has id belongs (inl (no_nodes addr.port)) in
    let (same, own) = init_network-add_nodes resolve config b second other in
    let there =
      subst (λ l. node_with_port addr.port l ≡ some a) (ap (λ x. x.nodes) same ∙ sym nodes) found in
    accept_known (addr_string (some addr)) conn m a
      (get_node_id-port addr addr.port m refl (let from = has.0 in omega arith) range ∙ there)
