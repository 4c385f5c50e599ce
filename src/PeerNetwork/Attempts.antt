-- ===== src/PeerNetwork/Attempts.antt =====
-- lab3/network/TCP.go: the three ways in which `ConnectToNode` ends.
use multi_paxos_work_in_prog.Common.{
  ℤ, pos, int_eq, ◌<ℤ◌, [], ◌∷◌, ◌++◌, Option, none, some, ◌≡◌, ◌≢◌, refl, arith, Option-cases, ◌⊎◌,
  inl, inr,
}
use multi_paxos_work_in_prog.Common.GoMap.{lookup, insert}
use multi_paxos_work_in_prog.Common.Text.{codes, show_int}
use multi_paxos_work_in_prog.PeerNetwork.{
  TcpAddr, colon, Conn, NodeConfig, Node, Network, NetError, no_client_port, unresolved,
  dial_failed, already_connected,
}
use multi_paxos_work_in_prog.PeerNetwork.Ports.{with_ports, ip_string}
use multi_paxos_work_in_prog.PeerNetwork.Ports.Searching.{FirstFree}
use multi_paxos_work_in_prog.PeerNetwork.Connecting.{Resolve, Dial, dial_from, connect_to_node}
use multi_paxos_work_in_prog.PeerNetwork.Healthy.{IsHealthy, claimed-Healthy}
use multi_paxos_work_in_prog.PeerNetwork.Claims.{
  FirstFree-usable, KeepsPort, get_client_addr_first, remove_port_nil, remove_port_last,
}

module _ (resolve : Resolve) (dial : Dial) (c : NodeConfig) (n : Network) (node : Node) where
  abbrev pub Refused : Option (Network × Option NetError) → Type 0
  Refused r = (e : NetError) × (e ≢ unresolved) × (r ≡ some (n, some e))

  abbrev claimed : ℤ → Network
  claimed port = with_ports n (n.node_index.used_ports ++ port ∷ [])

  -- The port stays taken without a connection,
  abbrev pub Leaked : ℤ → Option (Network × Option NetError) → Type 0
  Leaked port r = r ≡ some (claimed port, some unresolved)

  -- or is the one of a new connection.
  abbrev pub Connected : ℤ → Option (Network × Option NetError) → Type 0
  Connected port r =
      (addr : TcpAddr) × (conn : Conn) × (addr.port ≡ port)
      × (dial addr node.addr ≡ some conn)
      × (r ≡ some (record (claimed port) { connections = insert node.id conn n.connections }, none))

  abbrev pub Attempted : Option (Network × Option NetError) → Type 0
  Attempted r =
      Refused r
      ⊎ ((port : ℤ) × FirstFree c.client_port_min c.client_port_max n.node_index.used_ports port
          × (Leaked port r ⊎ Connected port r))

  module _ (h : IsHealthy c n) (low : pos 0 <ℤ c.client_port_min) (keeps : KeepsPort resolve) where
    dial_from-claimed :
        (port : ℤ) (addr : TcpAddr)
        → FirstFree c.client_port_min c.client_port_max n.node_index.used_ports port
        → addr.port ≡ port
        → Attempted (dial_from dial (claimed port) node (inr addr))
    unfolding dial_from
    dial_from-claimed port addr f same = elim (Option-cases (dial addr node.addr)) [
      | inl e ↦
          let (from_0, range) = FirstFree-usable c n port low h f in
          let freed = remove_port_last c n port addr h f.free same from_0 range in
          rw (e, dial_from, freed) (inl (dial_failed, (λ q. cc q), refl))
      | inr (conn, e) ↦ rw (e, dial_from) (inr (port, f, inr (addr, conn, same, e, refl)))
    ]

    -- `ConnectToNode` on a healthy node whose ports are above 0, with a resolution that keeps the
    -- port: it returns an error and leaves the network, its used ports included, as it was; or it
    -- takes the first free port of the node's range, and connects from that port; or the resolution
    -- of the own address fails, and the port stays in use without a connection.
    pub connect_to_node-Attempted : Attempted (connect_to_node resolve dial n node)
    unfolding connect_to_node
    connect_to_node-Attempted = elim (Option-cases (lookup node.id n.connections)) [
      | inr (conn, e) ↦ rw (e, connect_to_node) (inl (already_connected, (λ q. cc q), refl))
      | inl e ↦ elim (get_client_addr_first resolve c n h (omega arith)) [
        | inl (full, none_left) ↦
            rw (e, connect_to_node, none_left, dial_from, remove_port_nil c n h low)
              (inl (no_client_port, (λ q. cc q), refl))
        | inr (port, f, found) ↦
            elim (Option-cases
              (resolve (codes "tcp") (ip_string h.own.ip ++ colon ∷ show_int port))) [
                | inl unknown ↦
                    let kept =
                      remove_port_nil c (claimed port) (claimed-Healthy c n port h f) low in
                    rw (e, connect_to_node, found, unknown, dial_from, kept)
                      (inr (port, f, inl refl))
                | inr (addr, known) ↦
                    let (from_0, range) = FirstFree-usable c n port low h f in
                    rw (e, connect_to_node, found, known)
                      (dial_from-claimed port addr f
                        (keeps (ip_string h.own.ip) port addr from_0 range known))
              ]
      ]
    ]
