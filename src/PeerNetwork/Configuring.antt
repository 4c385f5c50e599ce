-- ===== src/PeerNetwork/Configuring.antt =====
-- lab3/network/TCP.go: what `InitNetwork` makes of the configuration.
use multi_paxos_work_in_prog.Common.{
  In, All-own, ap, ◌∙◌, sym, ◌≢◌, subst, pos, ◌+ℤ◌, All, ℤ, ◌==◌, int_eq, List, [], ◌∷◌, ◌++◌,
  Option, none, some, ◌≡◌, refl, Bool-cases, Option-cases, ◌⊎◌, inl, inr, not, Bool, true, false,
  if◌then◌else◌,
}
use multi_paxos_work_in_prog.Common.Int.{InRange, int_beq_iff}
use multi_paxos_work_in_prog.Common.Text.{Text, show_int}
use multi_paxos_work_in_prog.PeerNetwork.{
  NodeConfig, ConfigInstance, zero_node, node_of_config, add_node, add_nodes, start_network,
  init_network, TcpAddr, Node, Network, colon,
}
use multi_paxos_work_in_prog.PeerNetwork.Connecting.{Resolve}
use multi_paxos_work_in_prog.PeerNetwork.Healthy.{Healthy, IsHealthy}

guard_passed :
    {A : Type 0} (b : Bool) (m n : A)
    → (if not b then none else some m) ≡ some n
    → (b ≡ true) × (m ≡ n)
guard_passed true m n e = (refl, cc e)
guard_passed false m n e = cc e

-- A network that is made is what the loop leaves, with the own node's id.
module _ (resolve : Text → Text → Option TcpAddr) (config : ConfigInstance) (node_index : ℤ) where
  abbrev read : Network
  read = add_nodes resolve node_index (start_network config) config.nodes

  pub init_network-add_nodes :
      (n : Network)
      → init_network resolve config node_index ≡ some n
      → (read ≡ n) × (n.node_index.id ≡ node_index)
  unfolding init_network
  init_network-add_nodes n e =
      let (own, same) = guard_passed (read.node_index.id == node_index) read n e in
      (same, subst (λ m. m.node_index.id ≡ node_index) same ((int_beq_iff _ _).0 own))

-- What the loop over the configuration leaves as the node's own entry: nothing yet, or the entry
-- with its id, healthy.
abbrev OwnEntry : ℤ → List NodeConfig → Node → Type 0
OwnEntry node_index cs node =
    (node ≡ zero_node) ⊎ ((c : NodeConfig) × In c cs × (c.id ≡ node_index) × Healthy c node)

-- A range of ports that the loop of `getClientAddr` can run through.
abbrev pub HasRange : NodeConfig → Type 0
HasRange c = InRange c.client_port_min × InRange (c.client_port_max +ℤ pos 1)

module _ (resolve : Resolve) (node_index : ℤ) (all : List NodeConfig) where
  add_node-OwnEntry :
      (n : Network) (c : NodeConfig)
      → HasRange c
      → In c all
      → OwnEntry node_index all n.node_index
      → OwnEntry node_index all (add_node resolve node_index n c).node_index
  unfolding add_node node_of_config
  add_node-OwnEntry n c r i h =
      elim (Option-cases (resolve n.transport_proto (c.ip ++ colon ∷ show_int c.server_port))) [
        | inl e ↦ rw (e, add_node) h
        | inr (addr, e) ↦ elim (Bool-cases (c.id == node_index)) [
          | inl own ↦
              let entry : Healthy c (node_of_config c addr) = record {
                same_id = refl;
                same_low = refl;
                same_high = refl;
                own = addr;
                has_addr = refl;
                low = r.0;
                high = r.1;
                unique = tt;
                inside = tt;
              } in
              rw (e, own, add_node) (inr (c, i, (int_beq_iff c.id node_index).0 own, entry))
          | inr other ↦ rw (e, other, add_node) h
        ]
      ]

  add_nodes-OwnEntry :
      (n : Network) (cs : List NodeConfig)
      → All HasRange cs
      → All (λ c. In c all) cs
      → OwnEntry node_index all n.node_index
      → OwnEntry node_index all (add_nodes resolve node_index n cs).node_index
  unfolding add_nodes
  add_nodes-OwnEntry n [] r i h = h
  add_nodes-OwnEntry n (c ∷ cs) r i h =
      add_nodes-OwnEntry (add_node resolve node_index n c) cs r.1 i.1
        (add_node-OwnEntry n c r.0 i.0 h)

-- A network that is made for another node than 0 has the node's entry.
pub init_network-Healthy :
    (resolve : Resolve) (config : ConfigInstance) (node_index : ℤ) (n : Network)
    → All HasRange config.nodes
    → node_index ≢ pos 0
    → init_network resolve config node_index ≡ some n
    → (c : NodeConfig) × In c config.nodes × (c.id ≡ node_index) × IsHealthy c n
init_network-Healthy resolve config node_index n r other e =
    let (same, id) = init_network-add_nodes resolve config node_index n e in
    let entry =
      add_nodes-OwnEntry resolve node_index config.nodes (start_network config) config.nodes r
        (All-own config.nodes) (inl refl) in
    elim (subst (λ m. OwnEntry node_index config.nodes m.node_index) same entry) [
      | inl zero ↦ absurd (other (sym id ∙ ap (λ m. m.id) zero))
      | inr found ↦ found
    ]
