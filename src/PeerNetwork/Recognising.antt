-- ===== src/PeerNetwork/Recognising.antt =====
-- lab3/network/TCP.go: a node knows another one by the port that it dials from.
use multi_paxos_work_in_prog.Common.{
  ℤ, int_eq, ◌≤ℤ◌, ◌==◌, ◌&&◌, leb_ℤ, Bool, true, List, [], ◌∷◌, ◌++◌, All, In, Option, none, some,
  ◌≡◌, ◌≢◌, refl, arith, ap, sym, subst, ◌∙◌, Bool-cases, Option-cases, ◌⊎◌, inl, inr,
}
use multi_paxos_work_in_prog.Common.Int.{int_beq_iff}
use multi_paxos_work_in_prog.Common.Text.{show_int}
use multi_paxos_work_in_prog.PeerNetwork.{
  TcpAddr, colon, NodeConfig, Node, Network, node_of_config, add_node, add_nodes,
}
use multi_paxos_work_in_prog.PeerNetwork.Connecting.{Resolve, node_with_port}

-- The port is in the range of the entry.
abbrev pub HasPort : ℤ → NodeConfig → Type 0
HasPort port c = (c.client_port_min ≤ℤ port) × (port ≤ℤ c.client_port_max)

node_with_port_front :
    (port id : ℤ) (nodes more : List Node)
    → node_with_port port nodes ≡ some id
    → node_with_port port (nodes ++ more) ≡ some id
unfolding node_with_port
node_with_port_front port id [] more h = cc h
node_with_port_front port id (node ∷ nodes) more h =
    ground (arith, node_with_port_front port id nodes more)

node_with_port_back :
    (port : ℤ) (nodes more : List Node)
    → node_with_port port nodes ≡ none
    → node_with_port port (nodes ++ more) ≡ node_with_port port more
unfolding node_with_port
node_with_port_back port [] more h = refl
node_with_port_back port (node ∷ nodes) more h = ground (arith, node_with_port_back port nodes more)

-- The port belongs to nobody yet, or to the node `id`.
abbrev Unclaimed : ℤ → ℤ → List Node → Type 0
Unclaimed port id nodes = (node_with_port port nodes ≡ none) ⊎ (node_with_port port nodes ≡ some id)

-- the test of `getNodeIdFromRemoteAddr`
abbrev tests : ℤ → NodeConfig → Bool
tests port c = leb_ℤ c.client_port_min port && leb_ℤ port c.client_port_max

tests-HasPort : (port : ℤ) (c : NodeConfig) → tests port c ≡ true → HasPort port c
tests-HasPort port c h = ground arith

HasPort-tests : (port : ℤ) (c : NodeConfig) → HasPort port c → tests port c ≡ true
HasPort-tests port c h = ground arith

module _ (resolve : Resolve) (own port id : ℤ) where
  claimed_node :
      (c : NodeConfig) (addr : TcpAddr) (nodes : List Node)
      → HasPort port c
      → c.id ≡ id
      → Unclaimed port id nodes
      → node_with_port port (nodes ++ node_of_config c addr ∷ []) ≡ some id
  unfolding node_with_port node_of_config
  claimed_node c addr nodes has same (inr known) =
      node_with_port_front port id nodes (node_of_config c addr ∷ []) known
  claimed_node c addr nodes has same (inl none_yet) =
      node_with_port_back port nodes (node_of_config c addr ∷ []) none_yet
      ∙ rw (HasPort-tests port c has) (ap some same)

  another_node :
      (c : NodeConfig) (addr : TcpAddr) (nodes : List Node)
      → (HasPort port c → c.id ≡ id)
      → Unclaimed port id nodes
      → Unclaimed port id (nodes ++ node_of_config c addr ∷ [])
  unfolding node_with_port node_of_config
  another_node c addr nodes belongs u = elim (Bool-cases (tests port c)) [
    | inl t ↦
        let has = tests-HasPort port c t in inr (claimed_node c addr nodes has (belongs has) u)
    | inr t ↦ elim u [
      | inl none_yet ↦
          inl (node_with_port_back port nodes (node_of_config c addr ∷ []) none_yet ∙ rw t refl)
      | inr known ↦ inr (node_with_port_front port id nodes (node_of_config c addr ∷ []) known)
    ]
  ]

  module _ (n : Network) (c : NodeConfig) where
    abbrev result : Option TcpAddr
    result = resolve n.transport_proto (c.ip ++ colon ∷ show_int c.server_port)

    add_node-Unclaimed :
        (HasPort port c → c.id ≡ id)
        → Unclaimed port id n.nodes
        → Unclaimed port id (add_node resolve own n c).nodes
    unfolding add_node
    add_node-Unclaimed belongs u = elim (Option-cases result) [
      | inl e ↦ rw (e, add_node) u
      | inr (addr, e) ↦ elim (Bool-cases (c.id == own)) [
        | inl same ↦ rw (e, same, add_node) u
        | inr other ↦ rw (e, other, add_node) (another_node c addr n.nodes belongs u)
      ]
    ]

    add_node_known :
        node_with_port port n.nodes ≡ some id
        → node_with_port port (add_node resolve own n c).nodes ≡ some id
    unfolding add_node
    add_node_known known = elim (Option-cases result) [
      | inl e ↦ rw (e, add_node) known
      | inr (addr, e) ↦ elim (Bool-cases (c.id == own)) [
        | inl same ↦ rw (e, same, add_node) known
        | inr other ↦
            rw (e, other, add_node)
              (node_with_port_front port id n.nodes (node_of_config c addr ∷ []) known)
      ]
    ]

    -- the entry of the node `id`
    add_node_found :
        (addr : TcpAddr)
        → result ≡ some addr
        → c.id ≢ own
        → HasPort port c
        → c.id ≡ id
        → Unclaimed port id n.nodes
        → node_with_port port (add_node resolve own n c).nodes ≡ some id
    unfolding add_node
    add_node_found addr e foreign has same u = elim (Bool-cases (c.id == own)) [
      | inl mine ↦ absurd (foreign ((int_beq_iff c.id own).0 mine))
      | inr other ↦ rw (e, other, add_node) (claimed_node c addr n.nodes has same u)
    ]

    add_node-transport_proto : (add_node resolve own n c).transport_proto ≡ n.transport_proto
    unfolding add_node
    add_node-transport_proto = elim (Option-cases result) [
      | inl e ↦ rw (e, add_node) refl
      | inr (addr, e) ↦ elim (Bool-cases (c.id == own)) [
        | inl same ↦ rw (e, same, add_node) refl
        | inr other ↦ rw (e, other, add_node) refl
      ]
    ]

  add_nodes_known :
      (n : Network) (cs : List NodeConfig)
      → node_with_port port n.nodes ≡ some id
      → node_with_port port (add_nodes resolve own n cs).nodes ≡ some id
  unfolding add_nodes
  add_nodes_known n [] known = known
  add_nodes_known n (c ∷ cs) known =
      add_nodes_known (add_node resolve own n c) cs (add_node_known n c known)

  pub add_nodes_found :
      (n : Network) (cs : List NodeConfig) (c : NodeConfig) (addr : TcpAddr)
      → In c cs
      → resolve n.transport_proto (c.ip ++ colon ∷ show_int c.server_port) ≡ some addr
      → c.id ≢ own
      → HasPort port c
      → c.id ≡ id
      → All (λ d. HasPort port d → d.id ≡ id) cs
      → Unclaimed port id n.nodes
      → node_with_port port (add_nodes resolve own n cs).nodes ≡ some id
  unfolding add_nodes
  add_nodes_found n [] c addr i e foreign has same all u = absurd i
  add_nodes_found n (d ∷ cs) c addr (inl eq) e foreign has same all u =
      let found = add_node_found n c addr e foreign has same u in
      add_nodes_known (add_node resolve own n d) cs
        (subst (λ x. node_with_port port (add_node resolve own n x).nodes ≡ some id) (sym eq) found)
  add_nodes_found n (d ∷ cs) c addr (inr i) e foreign has same all u =
      let e' =
        ap (λ p. resolve p (c.ip ++ colon ∷ show_int c.server_port)) (add_node-transport_proto n d)
        ∙ e in
      add_nodes_found (add_node resolve own n d) cs c addr i e' foreign has same all.1
        (add_node-Unclaimed n d all.0 u)
