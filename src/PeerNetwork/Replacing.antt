-- ===== src/PeerNetwork/Replacing.antt =====
-- lab3/network/TCP.go: the end of a connection that a newer one has replaced, and a node 0 that the
-- configuration does not name.
use multi_paxos_work_in_prog.Common.{
  ℤ, pos, int_eq, ◌==◌, false, not, if◌then◌else◌, List, [], ◌∷◌, ◌++◌, All, none, some, ◌>>=◌, ◌≡◌,
  ◌≢◌, refl, arith, ap, sym, subst, ◌∙◌, Option-cases, inl, inr,
}
use multi_paxos_work_in_prog.Common.Int.{int_beq, int_beq_iff}
use multi_paxos_work_in_prog.Common.GoMap.{lookup, insert, delete, lookup-delete, lookup-insert}
use multi_paxos_work_in_prog.Common.Text.{Text, show_int}
use multi_paxos_work_in_prog.PeerNetwork.{
  colon, Conn, NodeConfig, ConfigInstance, Node, Network, add_node, add_nodes, start_network,
  init_network, node_of_config,
}
use multi_paxos_work_in_prog.PeerNetwork.Addresses.{port_of, addr_string}
use multi_paxos_work_in_prog.PeerNetwork.Ports.{
  with_ports, find_port, port_fuel, is_used, use_port, get_client_addr,
}
use multi_paxos_work_in_prog.PeerNetwork.Ports.Removing.{remove_used-without, without}
use multi_paxos_work_in_prog.PeerNetwork.Connecting.{
  Resolve, accept_conn, get_node_id, cleanup_conn,
}
use multi_paxos_work_in_prog.PeerNetwork.Healthy.{IsHealthy}
use multi_paxos_work_in_prog.PeerNetwork.Peers.{accept_known}

cleanup_conn-Healthy :
    (c : NodeConfig) (n : Network) (id : ℤ) (conn : Conn)
    → IsHealthy c n
    → (ports : List ℤ) × (cleanup_conn conn id n
        ≡ some (with_ports (record n { connections = delete id n.connections }) ports))
unfolding cleanup_conn
cleanup_conn-Healthy c n id conn h =
    let port = (port_of (addr_string (some conn.local_addr))).0 in
    let cleaned = record n { connections = delete id n.connections } in
    (
      without port n.node_index.used_ports,
      ap (λ o. o >>= λ ports. some (with_ports cleaned ports))
          (remove_used-without port n.node_index.used_ports h.unique),
    )

-- On a healthy node that takes a new connection from another node and stores it: when a goroutine
-- that read from an older connection with the same node ends after that, the stored connection is
-- dropped, and the node has none to the other one left.
pub newer_conn_dropped :
    (c : NodeConfig) (n : Network) (remote : Text) (id : ℤ) (old new : Conn)
    → IsHealthy c n
    → get_node_id remote n ≡ some id
    → let n' = (accept_conn remote new n).0 in
      (lookup id n'.connections ≡ some new)
      × ((n'' : Network) × (cleanup_conn old id n' ≡ some n'') × (lookup id n''.connections ≡ none))
unfolding with_ports
newer_conn_dropped c n remote id old new h known =
    let m = record n { connections = insert id new n.connections } in
    let taken : (accept_conn remote new n).0 ≡ m =
      ap (λ r. r.0) (accept_known remote new n id known) in
    let (ports, cleaned) = cleanup_conn-Healthy c m id old h in
    let after = with_ports (record m { connections = delete id m.connections }) ports in
    let found : lookup id m.connections ≡ some new =
      ground (arith, lookup-insert id id new n.connections, int_beq_iff id id) in
    let gone : lookup id after.connections ≡ none =
      ground (arith, lookup-delete id id m.connections, int_beq_iff id id) in
    (
      subst (λ x. lookup id x.connections ≡ some new) (sym taken) found,
      (after, subst (λ x. cleanup_conn old id x ≡ some after) (sym taken) cleaned, gone),
    )

module _ (resolve : Resolve) where
  -- Without a node 0, the loop only adds nodes.
  add_node_absent :
      (n : Network) (c : NodeConfig)
      → c.id ≢ pos 0
      → (nodes : List Node) × (add_node resolve (pos 0) n c ≡ record n { nodes = nodes })
  unfolding add_node
  add_node_absent n c absent =
      let other : (c.id == pos 0) ≡ false = ground (arith, int_beq_iff c.id (pos 0)) in
      elim (Option-cases (resolve n.transport_proto (c.ip ++ colon ∷ show_int c.server_port))) [
        | inl e ↦ (n.nodes, rw (e, add_node) refl)
        | inr (addr, e) ↦ (n.nodes ++ node_of_config c addr ∷ [], rw (e, other, add_node) refl)
      ]

  add_nodes_absent :
      (n : Network) (cs : List NodeConfig)
      → All (λ c. c.id ≢ pos 0) cs
      → (nodes : List Node) × (add_nodes resolve (pos 0) n cs ≡ record n { nodes = nodes })
  unfolding add_nodes
  add_nodes_absent n [] absent = (n.nodes, refl)
  add_nodes_absent n (c ∷ cs) absent =
      let (nodes, e) = add_node_absent n c absent.0 in
      let (more, e') = add_nodes_absent (record n { nodes = nodes }) cs absent.1 in
      (more, ap (λ m. add_nodes resolve (pos 0) m cs) e ∙ e')

-- A configuration without a node 0: `InitNetwork` for node 0 makes a network all the same, and it
-- panics as soon as it wants a port to dial from.
pub node_zero_panics :
    (resolve : Resolve) (config : ConfigInstance)
    → All (λ c. c.id ≢ pos 0) config.nodes
    → (n : Network) × (init_network resolve config (pos 0) ≡ some n)
      × (get_client_addr resolve n ≡ none)
unfolding init_network get_client_addr find_port port_fuel is_used int_beq use_port
node_zero_panics resolve config absent =
    let (nodes, e) = add_nodes_absent resolve (start_network config) config.nodes absent in
    let n = record (start_network config) { nodes = nodes } in
    (
      n,
      subst (λ m. (if not (m.node_index.id == pos 0) then none else some m) ≡ some n) (sym e) refl,
      refl,
    )
