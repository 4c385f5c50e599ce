-- ===== src/PeerNetwork/Claims.antt =====
-- lab3/network/TCP.go: which port `getClientAddr` takes, and what `ConnectToNode` leaves of it where
-- it fails.
use multi_paxos_work_in_prog.Common.{
  int_laws, ℤ, pos, ◌+ℤ◌, ◌<ℤ◌, ◌≤ℤ◌, negsuc, int_eq, List, [], ◌∷◌, ◌++◌, Option, none, some, ◌≡◌,
  All, refl, sym, arith, ap, ◌∙◌, ◌⊎◌, inl, inr, false, ◌>>=◌, lt→ltb_ℤ,
}
use multi_paxos_work_in_prog.Common.Int.{InRange, int_beq_iff}
use multi_paxos_work_in_prog.Common.Text.{Text, codes, show_int}
use multi_paxos_work_in_prog.PeerNetwork.{
  NetError, TcpAddr, colon, NodeConfig, Network, no_client_port,
}
use multi_paxos_work_in_prog.PeerNetwork.Addresses.{
  port_of, addr_string, port_of-addr_string, port_of_nil,
}
use multi_paxos_work_in_prog.PeerNetwork.Ports.{
  is_used, with_ports, resolved, use_port, ip_string, get_client_addr, remove_used, remove_port,
}
use multi_paxos_work_in_prog.PeerNetwork.Ports.Removing.{
  Unique, without, without_unused, remove_used-without, without_snoc, snoc-Unique,
}
use multi_paxos_work_in_prog.PeerNetwork.Ports.Searching.{Taken, FirstFree}
use multi_paxos_work_in_prog.PeerNetwork.Connecting.{Resolve}
use multi_paxos_work_in_prog.PeerNetwork.Healthy.{IsHealthy, get_client_addr-cases}

-- A successful resolution keeps a port from 0 up of the text.
abbrev pub KeepsPort : Resolve → Type 0
KeepsPort resolve =
    (host : Text) (port : ℤ) (addr : TcpAddr)
    → pos 0 ≤ℤ port
    → InRange port
    → resolve (codes "tcp") (host ++ colon ∷ show_int port) ≡ some addr
    → addr.port ≡ port

-- The first free port of a node with ports above 0 is an `int` from 0 up.
pub FirstFree-usable :
    (c : NodeConfig) (n : Network) (port : ℤ)
    → pos 0 <ℤ c.client_port_min
    → IsHealthy c n
    → FirstFree c.client_port_min c.client_port_max n.node_index.used_ports port
    → (pos 0 ≤ℤ port) × InRange port
FirstFree-usable c n port low h f =
    in_bounds port c.client_port_min c.client_port_max low h.high f.from_low f.to_high
  where
    in_bounds :
        (port low high : ℤ)
        → pos 0 <ℤ low
        → InRange (high +ℤ pos 1)
        → low ≤ℤ port
        → port ≤ℤ high
        → (pos 0 ≤ℤ port) × InRange port
    in_bounds port low high h r k l = (omega arith, grind int_laws)

use_port-resolved :
    (resolve : Resolve) (own : TcpAddr) (port : ℤ)
    → pos 0 ≤ℤ port
    → use_port resolve (some own) port
      ≡ some (resolved (resolve (codes "tcp") (ip_string own.ip ++ colon ∷ show_int port)))
unfolding use_port
use_port-resolved resolve own port h = rw (lt→ltb_ℤ (negsuc 0) port (omega arith)) refl

-- what `getClientAddr` leaves and returns
abbrev Answer : Type 0
Answer = Option (Network × (NetError ⊎ TcpAddr))

module _ (resolve : Resolve) (c : NodeConfig) (n : Network) where
  -- No port of the range is free, and nothing changes;
  abbrev pub NoneLeft : Answer → Type 0
  NoneLeft r =
      Taken c.client_port_min (c.client_port_max +ℤ pos 1) n.node_index.used_ports
      × (r ≡ some (n, inl no_client_port))

  -- or the first free port is in use at the end of the list, and the result is what the address
  -- with that port resolves to.
  abbrev pub TakesFirst : TcpAddr → Answer → Type 0
  TakesFirst own r =
      (port : ℤ) × FirstFree c.client_port_min c.client_port_max n.node_index.used_ports port
      × (r
          ≡ some (
            with_ports n (n.node_index.used_ports ++ port ∷ []),
            resolved (resolve (codes "tcp") (ip_string own.ip ++ colon ∷ show_int port)),
          ))

-- `getClientAddr` on a healthy node with ports from 0 up ends. It takes the first free port of the
-- node's range, marks it as used at the end of the list, and returns what the address with that port
-- resolves to; or no port of the range is free, and it returns its error and changes nothing.
pub get_client_addr_first :
    (resolve : Resolve) (c : NodeConfig) (n : Network) (h : IsHealthy c n)
    → pos 0 ≤ℤ c.client_port_min
    → NoneLeft resolve c n (get_client_addr resolve n)
      ⊎ TakesFirst resolve c n h.own (get_client_addr resolve n)
get_client_addr_first resolve c n h low = elim (get_client_addr-cases c resolve n h) [
  | inl (e, taken) ↦ inl (taken, e)
  | inr (port, f, r, used_port, e) ↦
      let from = f.from_low in
      inr (
        port,
        f,
        e
            ∙ ap (λ r. some (with_ports n (n.node_index.used_ports ++ port ∷ []), r))
                (cc (sym used_port ∙ use_port-resolved resolve h.own port (omega arith))),
      )
]

remove_port-without :
    (addr : Option TcpAddr) (n : Network) (port : ℤ) (rest : List ℤ)
    → (port_of (addr_string addr)).0 ≡ port
    → Unique n.node_index.used_ports
    → without port n.node_index.used_ports ≡ rest
    → remove_port addr n ≡ some (with_ports n rest)
unfolding remove_port
remove_port-without addr n port rest text unique e =
    let ports = n.node_index.used_ports in
    ap (λ p. remove_used p ports >>= λ left. some (with_ports n left)) text
    ∙ ap (λ o. o >>= λ left. some (with_ports n left)) (remove_used-without port ports unique)
    ∙ ap (λ left. some (with_ports n left)) e

unused_below :
    (low high : ℤ) (ports : List ℤ)
    → pos 0 <ℤ low
    → All (λ port. (low ≤ℤ port) × (port ≤ℤ high)) ports
    → is_used (pos 0) ports ≡ false
unfolding is_used
unused_below low high [] h a = refl
unused_below low high (port ∷ ports) h a =
    ground (arith, unused_below low high ports h a.1, int_beq_iff port (pos 0))

-- A nil address stands for port 0, which no node uses whose ports are above it.
pub remove_port_nil :
    (c : NodeConfig) (n : Network)
    → IsHealthy c n
    → pos 0 <ℤ c.client_port_min
    → remove_port none n ≡ some n
unfolding with_ports
remove_port_nil c n h low =
    let ports = n.node_index.used_ports in
    let unused = unused_below c.client_port_min c.client_port_max ports low h.inside in
    remove_port-without none n (pos 0) ports (ap (λ r. r.0) port_of_nil) h.unique
      (without_unused (pos 0) ports unused)

-- The port at the end of the list is given back.
pub remove_port_last :
    (c : NodeConfig) (n : Network) (port : ℤ) (addr : TcpAddr)
    → IsHealthy c n
    → is_used port n.node_index.used_ports ≡ false
    → addr.port ≡ port
    → pos 0 ≤ℤ port
    → InRange port
    → remove_port (some addr) (with_ports n (n.node_index.used_ports ++ port ∷ [])) ≡ some n
unfolding with_ports
remove_port_last c n (pos port) addr h free keeps from_0 range =
    let ports = n.node_index.used_ports in
    remove_port-without (some addr) (with_ports n (ports ++ pos port ∷ [])) (pos port) ports
      (ap (λ r. r.0) (port_of-addr_string addr port keeps (omega arith)))
      (snoc-Unique (pos port) ports free h.unique) (without_snoc (pos port) ports free)
remove_port_last c n (negsuc port) addr h free keeps from_0 range = absurd (omega arith)
