-- ===== src/Examples/Peers.antt =====
-- Two nodes of a configuration of lab3/network.
use multi_paxos_work_in_prog.Common.{
  ℤ, pos, negsuc, int_eq, nat_eq, list_eq, ◌≤ℤ◌, true, List, [], ◌∷◌, ◌++◌, In, Option, none, some,
  ◌≡◌, ◌≢◌, refl, arith, ap, sym, subst, All, ◌∙◌, ◌⊎◌, inl, inr, int_laws,
}
use multi_paxos_work_in_prog.Common.Int.{int_beq}
use multi_paxos_work_in_prog.Common.GoMap.{insert}
use multi_paxos_work_in_prog.Common.Text.{codes, show_int}
use multi_paxos_work_in_prog.PeerNetwork.{
  TcpAddr, colon, Conn, NodeConfig, ConfigInstance, Node, Network, init_network, node_of_config,
  add_node, add_nodes,
}
use multi_paxos_work_in_prog.PeerNetwork.Addresses.{
  port_of, addr_string, port_of_text, port_of-addr_string,
}
use multi_paxos_work_in_prog.PeerNetwork.Connecting.{
  Resolve, Dial, accept_conn, connect_to_node, at_eof,
}
use multi_paxos_work_in_prog.PeerNetwork.Claims.{
  KeepsPort, NoneLeft, TakesFirst, get_client_addr_first,
}
use multi_paxos_work_in_prog.PeerNetwork.Ports.{
  get_client_addr, find_port, port_fuel, is_used, use_port, resolved, with_ports,
}
use multi_paxos_work_in_prog.PeerNetwork.Healthy.{IsHealthy, Holds}
use multi_paxos_work_in_prog.PeerNetwork.Attempts.{Attempted, connect_to_node-Attempted}
use multi_paxos_work_in_prog.PeerNetwork.Configuring.{HasRange}
use multi_paxos_work_in_prog.PeerNetwork.Runs.{
  Event, connects_all, reconnects, accepts, cleans_up, disconnects, run, ports_stay-Healthy,
}
use multi_paxos_work_in_prog.PeerNetwork.Peers.{peer_recognised, Separate, Resolves}
use multi_paxos_work_in_prog.PeerNetwork.Recognising.{HasPort}

-- A resolution that gives every host the same address.
abbrev pub one_host : Resolve
one_host proto text = some (record { ip = some (codes "10.0.0.1"); port = (port_of text).0 })

abbrev port_or_0 : Option TcpAddr → ℤ
port_or_0 none = pos 0
port_or_0 (some addr) = addr.port

one_host-KeepsPort : KeepsPort one_host
unfolding show_int
one_host-KeepsPort host (pos port) addr from_0 range e =
    sym (ap port_or_0 e) ∙ ap (λ r. r.0) (port_of_text host port (omega arith))
one_host-KeepsPort host (negsuc port) addr from_0 range e = absurd (omega arith)

abbrev entry : ℤ → ℤ → ℤ → ℤ → NodeConfig
entry id server low high = record {
  id = id;
  ip = codes "10.0.0.1";
  server_port = server;
  client_port_min = low;
  client_port_max = high;
}

abbrev pub entry_1 : NodeConfig
entry_1 = entry (pos 1) (pos 5) (pos 10) (pos 12)

abbrev pub entry_2 : NodeConfig
entry_2 = entry (pos 2) (pos 6) (pos 20) (pos 22)

abbrev pub config : ConfigInstance
config = record { transport_proto = codes "tcp"; nodes = entry_1 ∷ entry_2 ∷ [] }

abbrev pub server_addr : NodeConfig → TcpAddr
server_addr c = record {
  ip = some (codes "10.0.0.1");
  port = (port_of (c.ip ++ colon ∷ show_int c.server_port)).0;
}

abbrev pub network_of : NodeConfig → NodeConfig → Network
network_of own peer = record {
  node_index = node_of_config own (server_addr own);
  nodes = node_of_config peer (server_addr peer) ∷ [];
  connections = [];
  transport_proto = codes "tcp";
}

pub node_1_made : init_network one_host config (pos 1) ≡ some (network_of entry_1 entry_2)
unfolding init_network add_nodes add_node node_of_config int_beq
node_1_made = refl

node_2_made : init_network one_host config (pos 2) ≡ some (network_of entry_2 entry_1)
unfolding init_network add_nodes add_node node_of_config int_beq
node_2_made = refl

pub healthy_1 : IsHealthy entry_1 (network_of entry_1 entry_2)
unfolding node_of_config
healthy_1 = record {
  same_id = refl;
  same_low = refl;
  same_high = refl;
  own = server_addr entry_1;
  has_addr = refl;
  low = ground arith;
  high = grind int_laws;
  unique = tt;
  inside = tt;
}

abbrev dial_10 : Dial
dial_10 local remote = some (record { handle = pos 7; local_addr = local })

abbrev host_8001 : TcpAddr
host_8001 = record { ip = some (codes "::1"); port = pos 8001 }

port_of-addr_string_example : port_of (addr_string (some host_8001)) ≡ (pos 8001, true)
port_of-addr_string_example = port_of-addr_string host_8001 8001 refl (omega arith)

get_client_addr_first_example :
    NoneLeft one_host entry_1
      (network_of entry_1 entry_2)
      (get_client_addr one_host (network_of entry_1 entry_2))
    ⊎ TakesFirst one_host entry_1
        (network_of entry_1 entry_2)
        (server_addr entry_1)
        (get_client_addr one_host (network_of entry_1 entry_2))
unfolding healthy_1
get_client_addr_first_example =
    get_client_addr_first one_host entry_1 (network_of entry_1 entry_2) healthy_1 (omega arith)

abbrev node_2 : Node
node_2 = node_of_config entry_2 (server_addr entry_2)

connect_to_node-Attempted_example :
    Attempted one_host dial_10 entry_1
      (network_of entry_1 entry_2)
      node_2
      (connect_to_node one_host dial_10 (network_of entry_1 entry_2) node_2)
connect_to_node-Attempted_example =
    connect_to_node-Attempted one_host dial_10 entry_1 (network_of entry_1 entry_2) node_2 healthy_1
      (omega arith) one_host-KeepsPort

abbrev pub conn_7 : Conn
conn_7 = record { handle = pos 7; local_addr = record { ip = none; port = pos 10 } }

-- It connects, loses the connection, is dialled, tries again and ends.
abbrev events : List Event
events =
    connects_all one_host dial_10
    ∷ cleans_up conn_7 (pos 2)
    ∷ accepts (addr_string (some (record host_8001 { port = pos 20 }))) conn_7
    ∷ reconnects (λ l. l) (λ conn. at_eof) one_host dial_10
    ∷ disconnects (λ l. l)
    ∷ []

config-HasRange : All HasRange config.nodes
config-HasRange = ((ground arith, grind int_laws), ((ground arith, grind int_laws), tt))

pos_1_is_not_0 : pos 1 ≢ pos 0
pos_1_is_not_0 = λ e. cc e

ports_stay-Healthy_example :
    (c : NodeConfig) × In c config.nodes
    × (c.id ≡ pos 1)
    × Holds (IsHealthy c) (run (network_of entry_1 entry_2) events)
ports_stay-Healthy_example =
    ports_stay-Healthy one_host config (pos 1) (network_of entry_1 entry_2) events config-HasRange
      pos_1_is_not_0 node_1_made

-- Which node of the configuration has a port.
owner_of_port :
    (port : ℤ) (c : NodeConfig)
    → In c config.nodes
    → HasPort port c
    → ((c.id ≡ pos 1) × (port ≤ℤ pos 12)) ⊎ ((c.id ≡ pos 2) × (pos 20 ≤ℤ port))
owner_of_port port c (inl e) h =
    inl (sym (ap (λ x. x.id) e), (subst (λ x. HasPort port x) (sym e) h).1)
owner_of_port port c (inr (inl e)) h =
    inr (sym (ap (λ x. x.id) e), (subst (λ x. HasPort port x) (sym e) h).0)
owner_of_port port c (inr (inr i)) h = absurd i

config-Separate : Separate config.nodes
config-Separate port c d i j h k = elim (owner_of_port port c i h) [
  | inl (e, low) ↦ elim (owner_of_port port d j k) [
    | inl (e', low') ↦ e ∙ sym e'
    | inr (e', high) ↦ absurd (omega arith)
  ]
  | inr (e, high) ↦ elim (owner_of_port port d j k) [
    | inl (e', low') ↦ absurd (omega arith)
    | inr (e', high') ↦ e ∙ sym e'
  ]
]

config-Resolves : Resolves one_host config
config-Resolves c i = (server_addr c, refl)

abbrev local_10 : TcpAddr
local_10 = record {
  ip = some (codes "10.0.0.1");
  port = (port_of (codes "10.0.0.1" ++ colon ∷ show_int (pos 10))).0;
}

client_addr_10 :
    get_client_addr one_host (network_of entry_1 entry_2)
    ≡ some (with_ports (network_of entry_1 entry_2) (pos 10 ∷ []), inr local_10)
unfolding get_client_addr find_port port_fuel is_used use_port resolved with_ports node_of_config
client_addr_10 = refl

peer_recognised_example :
    accept_conn (addr_string (some local_10)) conn_7 (network_of entry_2 entry_1)
    ≡ (record (network_of entry_2 entry_1) { connections = insert (pos 1) conn_7 [] }, some (pos 1))
unfolding run
peer_recognised_example =
    peer_recognised one_host config (pos 1) (pos 2) (network_of entry_1 entry_2)
      (network_of entry_2 entry_1) [] (network_of entry_1 entry_2)
      (with_ports (network_of entry_1 entry_2) (pos 10 ∷ [])) local_10 (network_of entry_2 entry_1)
      conn_7 config-HasRange (omega arith, (omega arith, tt)) config-Separate config-Resolves
      one_host-KeepsPort pos_1_is_not_0 (λ e. cc e) node_1_made refl client_addr_10 node_2_made refl
