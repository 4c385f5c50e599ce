-- ===== src/PeerNetwork/Broadcasting.antt =====
-- lab3/network/TCP.go: whom `Broadcast` reaches.
use multi_paxos_work_in_prog.Common.{
  ℤ, int_eq, ◌==◌, ◌&&◌, false, if◌then◌else◌, List, [], ◌∷◌, ◌++◌, All, Option, none, some, ◌≡◌,
  ◌≢◌, refl, arith, ap, sym, subst, ◌∙◌, Bool-cases, Option-cases, inl, inr,
}
use multi_paxos_work_in_prog.Common.Int.{int_beq_iff}
use multi_paxos_work_in_prog.Common.GoMap.{lookup}
use multi_paxos_work_in_prog.Common.Text.{Text, show_int}
use multi_paxos_work_in_prog.PeerNetwork.{
  TcpAddr, colon, Conn, NodeConfig, ConfigInstance, Node, Network, node_of_config, add_node,
  add_nodes, start_network, init_network,
}
use multi_paxos_work_in_prog.PeerNetwork.Configuring.{init_network-add_nodes}
use multi_paxos_work_in_prog.PeerNetwork.Sending.{
  Message, Delivery, wrote, Link, send_conn, send_to, send, multicast, broadcast, node_ids,
}

module _ {P : Type 0} (link : Link P) (n : Network) (m : Message P) where
  -- One copy for a node whose connection takes it.
  abbrev copy_on : ℤ → Option Conn → List (Delivery P)
  copy_on id none = []
  copy_on id (some conn) =
      let copy = record m { to = id } in
      if link.marshals copy && link.writes conn copy then wrote conn copy ∷ [] else []

  abbrev pub copies : List Node → List (Delivery P)
  copies [] = []
  copies (node ∷ nodes) = copy_on node.id (lookup node.id n.connections) ++ copies nodes

  send_to-copy_on :
      (id : ℤ) (o : Option Conn) → (send_to link o (record m { to = id })).0 ≡ copy_on id o
  unfolding send_to send_conn
  send_to-copy_on id none = refl
  send_to-copy_on id (some conn) = ground arith

  send-copy_on :
      (id : ℤ)
      → id ≢ n.node_index.id
      → (send link n (record m { to = id })).0 ≡ copy_on id (lookup id n.connections)
  unfolding send
  send-copy_on id foreign =
      let other : (id == n.node_index.id) ≡ false =
        ground (arith, int_beq_iff id n.node_index.id) in
      rw (other, send) (send_to-copy_on id (lookup id n.connections))

  multicast-copies :
      (nodes : List Node)
      → All (λ node. node.id ≢ n.node_index.id) nodes
      → multicast link n (node_ids link nodes) m ≡ copies nodes
  unfolding multicast
  multicast-copies [] f = refl
  multicast-copies (node ∷ nodes) f = rw (send-copy_on node.id f.0, multicast-copies nodes f.1) refl

-- The nodes that `InitNetwork` lists are other ones than the own.
module _ (resolve : Text → Text → Option TcpAddr) (own : ℤ) where
  abbrev Foreign : List Node → Type 0
  Foreign = All (λ node. node.id ≢ own)

  Foreign-snoc :
      (nodes : List Node) (node : Node)
      → Foreign nodes
      → node.id ≢ own
      → Foreign (nodes ++ node ∷ [])
  Foreign-snoc [] node f g = (g, tt)
  Foreign-snoc (x ∷ nodes) node f g = (f.0, Foreign-snoc nodes node f.1 g)

  add_node-Foreign :
      (n : Network) (c : NodeConfig) → Foreign n.nodes → Foreign (add_node resolve own n c).nodes
  unfolding add_node node_of_config
  add_node-Foreign n c f =
      elim (Option-cases (resolve n.transport_proto (c.ip ++ colon ∷ show_int c.server_port))) [
        | inl e ↦ rw (e, add_node) f
        | inr (addr, e) ↦ elim (Bool-cases (c.id == own)) [
          | inl same ↦ rw (e, same, add_node) f
          | inr other ↦
              let foreign : c.id ≢ own = λ q. ground (arith, int_beq_iff c.id own) in
              rw (e, other, add_node) (Foreign-snoc n.nodes (node_of_config c addr) f foreign)
        ]
      ]

  add_nodes-Foreign :
      (n : Network) (cs : List NodeConfig)
      → Foreign n.nodes
      → Foreign (add_nodes resolve own n cs).nodes
  unfolding add_nodes
  add_nodes-Foreign n [] f = f
  add_nodes-Foreign n (c ∷ cs) f =
      add_nodes-Foreign (add_node resolve own n c) cs (add_node-Foreign n c f)

-- On a node of the configuration, `Broadcast` puts one copy of the message, addressed to the peer,
-- on the connection of every peer that has one and that takes it, in the order of the nodes,
-- whether or not others fail; and nothing else, so that no copy goes to the node itself.
pub broadcast-copies :
    {P : Type 0} (link : Link P) (resolve : Text → Text → Option TcpAddr) (config : ConfigInstance)
    (own : ℤ) (start n : Network) (m : Message P)
    → init_network resolve config own ≡ some start
    → n.node_index.id ≡ own
    → n.nodes ≡ start.nodes
    → broadcast link n m ≡ copies link n m start.nodes
unfolding broadcast
broadcast-copies link resolve config own start n m made id nodes =
    let (same, mine) = init_network-add_nodes resolve config own start made in
    let read = add_nodes-Foreign resolve own (start_network config) config.nodes tt in
    let foreign = subst (λ x. All (λ node. node.id ≢ own) x.nodes) same read in
    ap (λ l. multicast link n (node_ids link l) m) nodes
    ∙ multicast-copies link n m start.nodes
        (subst (λ o. All (λ node. node.id ≢ o) start.nodes) (sym id) foreign)
