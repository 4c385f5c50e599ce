-- ===== src/PeerNetwork/Healthy.antt =====
-- lab3/network/TCP.go: the client ports that a node keeps, and the methods that take one and give it
-- back.
use multi_paxos_work_in_prog.Common.{
  ℤ, pos, Option-cases, ◌≤ℤ◌, ◌+ℤ◌, int_eq, List, [], ◌∷◌, ◌++◌, Option, none, some, ◌>>=◌, ◌≡◌,
  refl, arith, subst, sym, ◌⊎◌, inl, inr, All,
}
use multi_paxos_work_in_prog.Common.Int.{InRange}
use multi_paxos_work_in_prog.PeerNetwork.{
  NodeConfig, NetError, TcpAddr, Node, Network, no_client_port,
}
use multi_paxos_work_in_prog.PeerNetwork.Addresses.{port_of, addr_string}
use multi_paxos_work_in_prog.PeerNetwork.Ports.{
  find_port, port_fuel, with_ports, use_port, get_client_addr, remove_used, remove_port,
}
use multi_paxos_work_in_prog.PeerNetwork.Ports.Removing.{
  Unique, without, remove_used-without, without-Unique, snoc-Unique,
}
use multi_paxos_work_in_prog.PeerNetwork.Ports.Searching.{
  Found, Taken, FirstFree, find_port-Found, Found-cases, port_fuel-Enough,
}
use multi_paxos_work_in_prog.PeerNetwork.Connecting.{Resolve}

-- Where there is a result, it has the property; and there is one.
abbrev pub Holds {ℓ} : {A : Type ℓ} → (A → Type 0) → Option A → Type 0
Holds P none = ⊥
Holds P (some a) = P a

pub Holds-bind {ℓ κ} :
    {A : Type ℓ} {B : Type κ} (P : A → Type 0) (Q : B → Type 0) (o : Option A) (f : A → Option B)
    → Holds P o
    → ((a : A) → P a → Holds Q (f a))
    → Holds Q (o >>= f)
Holds-bind P Q none f h g = h
Holds-bind P Q (some a) f h g = g a h

abbrev pub with_used : Node → List ℤ → Node
with_used node ports = record node { used_ports = ports }

module _ (c : NodeConfig) where
  -- The node is the entry `c` of the configuration. It has an address, its range of ports can be
  -- run through, and it uses no port twice and none outside its range.
  pub record Healthy (node : Node) : Type 0 where
    pub same_id : node.id ≡ c.id
    pub same_low : node.client_port_min ≡ c.client_port_min
    pub same_high : node.client_port_max ≡ c.client_port_max
    pub own : TcpAddr
    pub has_addr : node.addr ≡ some own
    pub low : InRange c.client_port_min
    pub high : InRange (c.client_port_max +ℤ pos 1)
    pub unique : Unique node.used_ports
    pub inside :
        All (λ port. (c.client_port_min ≤ℤ port) × (port ≤ℤ c.client_port_max)) node.used_ports

  abbrev pub IsHealthy : Network → Type 0
  IsHealthy n = Healthy n.node_index

  All-without :
      (P : ℤ → Type 0) (port : ℤ) (ports : List ℤ) → All P ports → All P (without port ports)
  All-without P port [] a = tt
  All-without P port (x ∷ ports) a = ground (arith, All-without P port ports a.1)

  All-snoc :
      (P : ℤ → Type 0) (ports : List ℤ) (port : ℤ)
      → All P ports
      → P port
      → All P (ports ++ port ∷ [])
  All-snoc P [] port a p = (p, tt)
  All-snoc P (x ∷ ports) port a p = (a.0, All-snoc P ports port a.1 p)

  pub remove_used-Healthy :
      (node : Node) (port : ℤ)
      → Healthy node
      → Holds (λ ports. Healthy (with_used node ports)) (remove_used port node.used_ports)
  remove_used-Healthy node port h =
      subst (λ o. Holds (λ ports. Healthy (with_used node ports)) o)
        (sym (remove_used-without port node.used_ports h.unique))
        (record {
          same_id = h.same_id;
          same_low = h.same_low;
          same_high = h.same_high;
          own = h.own;
          has_addr = h.has_addr;
          low = h.low;
          high = h.high;
          unique = without-Unique port node.used_ports h.unique;
          inside = All-without _ port node.used_ports h.inside;
        })

  pub remove_port-Healthy :
      (addr : Option TcpAddr) (n : Network) → IsHealthy n → Holds IsHealthy (remove_port addr n)
  unfolding remove_port with_ports
  remove_port-Healthy addr n h =
      let port = (port_of (addr_string addr)).0 in
      Holds-bind (λ ports. Healthy (with_used n.node_index ports)) IsHealthy
        (remove_used port n.node_index.used_ports) (λ ports. some (with_ports n ports))
        (remove_used-Healthy n.node_index port h) λ ports g. g

  pub claimed-Healthy :
      (n : Network) (port : ℤ)
      → IsHealthy n
      → FirstFree c.client_port_min c.client_port_max n.node_index.used_ports port
      → IsHealthy (with_ports n (n.node_index.used_ports ++ port ∷ []))
  unfolding with_ports
  claimed-Healthy n port h f = record {
    same_id = h.same_id;
    same_low = h.same_low;
    same_high = h.same_high;
    own = h.own;
    has_addr = h.has_addr;
    low = h.low;
    high = h.high;
    unique = snoc-Unique port n.node_index.used_ports f.free h.unique;
    inside = All-snoc _ n.node_index.used_ports port h.inside (f.from_low, f.to_high);
  }

  use_port-some :
      (resolve : Resolve) (own : TcpAddr) (port : ℤ)
      → (r : NetError ⊎ TcpAddr) × (use_port resolve (some own) port ≡ some r)
  unfolding use_port
  use_port-some resolve own port = elim (Option-cases (use_port resolve (some own) port)) [
    | inl e ↦ absurd (ground (arith, e))
    | inr there ↦ there
  ]

  -- What `getClientAddr` does on a healthy node.
  module _ (resolve : Resolve) (n : Network) (h : IsHealthy n) where
    abbrev used : List ℤ
    used = n.node_index.used_ports

    abbrev search : Option (Option ℤ)
    search =
        find_port (port_fuel n.node_index) n.node_index.client_port_min n.node_index.client_port_max
          used

    search-Found : Found c.client_port_min c.client_port_max used search
    search-Found =
        let min = n.node_index.client_port_min in
        let max = n.node_index.client_port_max in
        let low : InRange min = subst (λ x. InRange x) (sym h.same_low) h.low in
        let high : InRange (max +ℤ pos 1) =
          subst (λ x. InRange (x +ℤ pos 1)) (sym h.same_high) h.high in
        let found =
          find_port-Found (port_fuel n.node_index) min max used low high
            (port_fuel-Enough n.node_index) in
        subst (λ lo. Found lo c.client_port_max used search) h.same_low
          (subst (λ hi. Found min hi used search) h.same_high found)

    pub get_client_addr-cases :
        ((get_client_addr resolve n ≡ some (n, inl no_client_port))
          × Taken c.client_port_min (c.client_port_max +ℤ pos 1) used)
        ⊎ ((port : ℤ) × FirstFree c.client_port_min c.client_port_max used port
            × (r : NetError ⊎ TcpAddr) × (use_port resolve (some h.own) port ≡ some r)
            × (get_client_addr resolve n ≡ some (with_ports n (used ++ port ∷ []), r)))
    unfolding get_client_addr
    get_client_addr-cases =
        elim (Found-cases c.client_port_min c.client_port_max used search search-Found) [
          | inl (e, full) ↦ inl (rw e refl, full)
          | inr (port, e, f) ↦
              let (r, used_port) = use_port-some resolve h.own port in
              inr (port, f, r, used_port, rw (e, h.has_addr, used_port) refl)
        ]

    pub get_client_addr-Healthy : Holds (λ claimed. IsHealthy claimed.0) (get_client_addr resolve n)
    get_client_addr-Healthy = elim get_client_addr-cases [
      | inl (e, full) ↦ rw e h
      | inr (port, f, r, used_port, e) ↦ rw e (claimed-Healthy n port h f)
    ]
