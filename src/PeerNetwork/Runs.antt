-- ===== src/PeerNetwork/Runs.antt =====
-- lab3/network/TCP.go: every sequence of the methods that make and drop connections.
use multi_paxos_work_in_prog.Common.{
  In, ◌≢◌, pos, All, ℤ, int_eq, List, [], ◌∷◌, Option, none, some, ◌>>=◌, ◌≡◌, Bool-cases,
  Option-cases, ◌⊎◌, inl, inr,
}
use multi_paxos_work_in_prog.Common.GoMap.{GoMap, lookup, delete}
use multi_paxos_work_in_prog.Common.Text.{Text}
use multi_paxos_work_in_prog.PeerNetwork.Configuring.{HasRange, init_network-Healthy}
use multi_paxos_work_in_prog.PeerNetwork.{
  NodeConfig, ConfigInstance, init_network, TcpAddr, Node, Network, Conn, NetError, dial_failed,
}
use multi_paxos_work_in_prog.PeerNetwork.Addresses.{port_of, addr_string}
use multi_paxos_work_in_prog.PeerNetwork.Ports.{
  with_ports, get_client_addr, remove_used, remove_port,
}
use multi_paxos_work_in_prog.PeerNetwork.Connecting.{
  Resolve, Dial, dial_from, connect_to_node, connect_all, reconnect_all, OneByte, conn_terminated,
  clean_from, clean, clean_and_attempt_reconnect, cleanup_conn, release_all, remove_disconnected,
  accept_conn, get_node_id,
}
use multi_paxos_work_in_prog.PeerNetwork.Healthy.{
  Holds, Holds-bind, Healthy, IsHealthy, with_used, remove_used-Healthy, remove_port-Healthy,
  get_client_addr-Healthy,
}

-- A call of one of the methods, with what its environment does.
pub data Event : Type 0 where
  connects : Resolve → Dial → Node → Event
  connects_all : Resolve → Dial → Event
  reconnects : (GoMap ℤ Conn → GoMap ℤ Conn) → (Conn → OneByte) → Resolve → Dial → Event
  accepts : Text → Conn → Event
  cleans_up : Conn → ℤ → Event
  disconnects : (GoMap ℤ Conn → GoMap ℤ Conn) → Event

unfoldable pub step : Network → Event → Option Network
unfolding connect_to_node connect_all clean_and_attempt_reconnect accept_conn cleanup_conn
    remove_disconnected
step n (connects resolve dial node) = connect_to_node resolve dial n node >>= λ tried. some tried.0
step n (connects_all resolve dial) = connect_all resolve dial n n.nodes
step n (reconnects range incoming resolve dial) =
    clean_and_attempt_reconnect range incoming resolve dial n
step n (accepts remote conn) = some (accept_conn remote conn n).0
step n (cleans_up conn id) = cleanup_conn conn id n
step n (disconnects range) = remove_disconnected range n

unfoldable pub run : Network → List Event → Option Network
unfolding step
run n [] = some n
run n (e ∷ es) = step n e >>= λ n'. run n' es

module _ (c : NodeConfig) where
  dial_from-Healthy :
      (dial : Dial) (n : Network) (node : Node) (claimed : NetError ⊎ TcpAddr)
      → IsHealthy c n
      → Holds (λ tried. IsHealthy c tried.0) (dial_from dial n node claimed)
  unfolding dial_from
  dial_from-Healthy dial n node (inl e) h =
      Holds-bind (IsHealthy c) (λ tried. IsHealthy c tried.0) (remove_port none n)
        (λ freed. some (freed, some e)) (remove_port-Healthy c none n h) λ freed g. g
  dial_from-Healthy dial n node (inr addr) h = elim (Option-cases (dial addr node.addr)) [
    | inl e ↦
        rw (e, dial_from)
          (Holds-bind (IsHealthy c) (λ tried. IsHealthy c tried.0) (remove_port (some addr) n)
            (λ freed. some (freed, some dial_failed)) (remove_port-Healthy c (some addr) n h)
            λ freed g. g)
    | inr (conn, e) ↦ rw (e, dial_from) h
  ]

  connect_to_node-Healthy :
      (resolve : Resolve) (dial : Dial) (n : Network) (node : Node)
      → IsHealthy c n
      → Holds (λ tried. IsHealthy c tried.0) (connect_to_node resolve dial n node)
  unfolding connect_to_node
  connect_to_node-Healthy resolve dial n node h =
      elim (Option-cases (lookup node.id n.connections)) [
        | inl e ↦
            rw (e, connect_to_node)
              (Holds-bind (λ claimed. IsHealthy c claimed.0) (λ tried. IsHealthy c tried.0)
                (get_client_addr resolve n) (λ claimed. dial_from dial claimed.0 node claimed.1)
                (get_client_addr-Healthy c resolve n h)
                λ claimed g. dial_from-Healthy dial claimed.0 node claimed.1 g)
        | inr (conn, e) ↦ rw (e, connect_to_node) h
      ]

  connect_all-Healthy :
      (resolve : Resolve) (dial : Dial) (n : Network) (nodes : List Node)
      → IsHealthy c n
      → Holds (IsHealthy c) (connect_all resolve dial n nodes)
  unfolding connect_all
  connect_all-Healthy resolve dial n [] h = h
  connect_all-Healthy resolve dial n (node ∷ nodes) h =
      Holds-bind (λ tried. IsHealthy c tried.0) (IsHealthy c) (connect_to_node resolve dial n node)
        (λ tried. connect_all resolve dial tried.0 nodes)
        (connect_to_node-Healthy resolve dial n node h)
        λ tried g. connect_all-Healthy resolve dial tried.0 nodes g

  reconnect_all-Healthy :
      (resolve : Resolve) (dial : Dial) (n : Network) (nodes : List Node)
      → IsHealthy c n
      → Holds (IsHealthy c) (reconnect_all resolve dial n nodes)
  unfolding reconnect_all
  reconnect_all-Healthy resolve dial n [] h = h
  reconnect_all-Healthy resolve dial n (node ∷ nodes) h =
      elim (Option-cases (lookup node.id n.connections)) [
        | inl e ↦
            rw (e, reconnect_all)
              (Holds-bind (λ tried. IsHealthy c tried.0) (IsHealthy c)
                (connect_to_node resolve dial n node)
                (λ tried. reconnect_all resolve dial tried.0 nodes)
                (connect_to_node-Healthy resolve dial n node h)
                λ tried g. reconnect_all-Healthy resolve dial tried.0 nodes g)
        | inr (conn, e) ↦ rw (e, reconnect_all) (reconnect_all-Healthy resolve dial n nodes h)
      ]

  clean_from-Healthy :
      (incoming : Conn → OneByte) (n : Network) (entries : GoMap ℤ Conn)
      → IsHealthy c n
      → Holds (IsHealthy c) (clean_from incoming n entries)
  unfolding clean_from
  clean_from-Healthy incoming n [] h = h
  clean_from-Healthy incoming n ((key, conn) ∷ entries) h =
      elim (Bool-cases (conn_terminated (incoming conn))) [
        | inl e ↦
            rw (e, clean_from)
              (Holds-bind (IsHealthy c) (IsHealthy c) (remove_port (some conn.local_addr) n)
                (λ freed.
                  clean_from incoming (record freed { connections = delete key freed.connections })
                    entries)
                (remove_port-Healthy c (some conn.local_addr) n h)
                λ freed g.
                  clean_from-Healthy incoming
                    (record freed { connections = delete key freed.connections }) entries g)
        | inr e ↦ rw (e, clean_from) (clean_from-Healthy incoming n entries h)
      ]

  release_all-Healthy :
      (n : Network) (entries : GoMap ℤ Conn)
      → IsHealthy c n
      → Holds (IsHealthy c) (release_all n entries)
  unfolding release_all
  release_all-Healthy n [] h = h
  release_all-Healthy n ((key, conn) ∷ entries) h =
      Holds-bind (IsHealthy c) (IsHealthy c) (remove_port (some conn.local_addr) n)
        (λ freed. release_all freed entries) (remove_port-Healthy c (some conn.local_addr) n h)
        λ freed g. release_all-Healthy freed entries g

  accept_conn-Healthy :
      (remote : Text) (conn : Conn) (n : Network)
      → IsHealthy c n
      → IsHealthy c (accept_conn remote conn n).0
  unfolding accept_conn
  accept_conn-Healthy remote conn n h = elim (Option-cases (get_node_id remote n)) [
    | inl e ↦ rw (e, accept_conn) h
    | inr (id, e) ↦ rw (e, accept_conn) h
  ]

  step-Healthy : (n : Network) (e : Event) → IsHealthy c n → Holds (IsHealthy c) (step n e)
  unfolding step clean_and_attempt_reconnect clean cleanup_conn remove_disconnected with_ports
  step-Healthy n (connects resolve dial node) h =
      Holds-bind (λ tried. IsHealthy c tried.0) (IsHealthy c) (connect_to_node resolve dial n node)
        (λ tried. some tried.0) (connect_to_node-Healthy resolve dial n node h) λ tried g. g
  step-Healthy n (connects_all resolve dial) h = connect_all-Healthy resolve dial n n.nodes h
  step-Healthy n (reconnects range incoming resolve dial) h =
      Holds-bind (IsHealthy c) (IsHealthy c) (clean range incoming n)
        (λ cleaned. reconnect_all resolve dial cleaned cleaned.nodes)
        (clean_from-Healthy incoming n (range n.connections) h)
        λ cleaned g. reconnect_all-Healthy resolve dial cleaned cleaned.nodes g
  step-Healthy n (accepts remote conn) h = accept_conn-Healthy remote conn n h
  step-Healthy n (cleans_up conn id) h =
      let port = (port_of (addr_string (some conn.local_addr))).0 in
      Holds-bind (λ ports. Healthy c (with_used n.node_index ports)) (IsHealthy c)
        (remove_used port n.node_index.used_ports)
        (λ ports. some (with_ports (record n { connections = delete id n.connections }) ports))
        (remove_used-Healthy c n.node_index port h) λ ports g. g
  step-Healthy n (disconnects range) h =
      Holds-bind (IsHealthy c) (IsHealthy c) (release_all n (range n.connections))
        (λ freed. some (record freed { connections = [] }))
        (release_all-Healthy n (range n.connections) h) λ freed g. g

  pub run-Healthy : (n : Network) (es : List Event) → IsHealthy c n → Holds (IsHealthy c) (run n es)
  unfolding run
  run-Healthy n [] h = h
  run-Healthy n (e ∷ es) h =
      Holds-bind (IsHealthy c) (IsHealthy c) (step n e) (λ n'. run n' es) (step-Healthy n e h)
        λ n' g. run-Healthy n' es g

-- Whatever a node of the configuration other than node 0 does and whatever its environment answers,
-- its methods never panic on the slices of ports that they shorten while they range over them: the
-- ports in use stay distinct and within the range of the node's entry. The ranges of the
-- configuration are `int`s below the largest one.
pub ports_stay-Healthy :
    (resolve : Resolve) (config : ConfigInstance) (node_index : ℤ) (n : Network) (es : List Event)
    → All HasRange config.nodes
    → node_index ≢ pos 0
    → init_network resolve config node_index ≡ some n
    → (c : NodeConfig) × In c config.nodes × (c.id ≡ node_index) × Holds (IsHealthy c) (run n es)
ports_stay-Healthy resolve config node_index n es r other e =
    let (c, i, id, h) = init_network-Healthy resolve config node_index n r other e in
    (c, i, id, run-Healthy c n es h)
