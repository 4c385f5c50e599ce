-- ===== src/PeerNetwork.antt =====
-- lab3/network/TCP.go: the nodes, their network, and how the configuration is read into it. The
-- resolution of addresses, dials, listening and the JSON encoding are outside the model: their
-- results are arguments. The channels are what the functions return.
pub mod Addresses
pub mod Ports
pub mod Connecting
pub mod Configuring
pub mod Healthy
pub mod Claims
pub mod Attempts
pub mod Runs
pub mod Replacing
pub mod Sending
pub mod Broadcasting
pub mod Heartbeats
pub mod Peers
pub mod Recognising
use multi_paxos_work_in_prog.Common.{
  ℕ, ℤ, pos, int_eq, not, ◌==◌, Bool, if◌then◌else◌, List, [], ◌∷◌, ◌++◌, Option, none, some,
}
use multi_paxos_work_in_prog.Common.GoMap.{GoMap}
use multi_paxos_work_in_prog.Common.Text.{Text, show_int}

abbrev pub colon : ℕ
colon = 58

-- `net.TCPAddr` but for the zone; an address without a host has no `ip`.
pub record TcpAddr : Type 0 where
  pub ip : Option Text
  pub port : ℤ

-- An entry of `ConfigInstance.Nodes`.
pub record NodeConfig : Type 0 where
  pub id : ℤ
  pub ip : Text
  pub server_port : ℤ
  pub client_port_min : ℤ
  pub client_port_max : ℤ

-- The fields that the code reads.
pub record ConfigInstance : Type 0 where
  pub transport_proto : Text
  pub nodes : List NodeConfig

-- `addr` is nil where it is `none`.
pub record Node : Type 0 where
  pub id : ℤ
  pub addr : Option TcpAddr
  pub client_port_min : ℤ
  pub client_port_max : ℤ
  pub used_ports : List ℤ

abbrev pub zero_node : Node
zero_node = record {
  id = pos 0;
  addr = none;
  client_port_min = pos 0;
  client_port_max = pos 0;
  used_ports = [];
}

-- A connection, with what `LocalAddr` gives of it.
pub record Conn : Type 0 where
  pub handle : ℤ
  pub local_addr : TcpAddr

-- The fields but the channels, the listener and the logger.
pub record Network : Type 0 where
  pub node_index : Node
  pub nodes : List Node
  pub connections : GoMap ℤ Conn
  pub transport_proto : Text

-- The errors that the methods return, but for their texts.
pub data NetError : Type 0 where
  no_node_index already_connected no_client_port unresolved dial_failed : NetError
  no_connection marshal_failed write_failed unknown_addr : NetError

unfoldable pub node_of_config : NodeConfig → TcpAddr → Node
node_of_config c addr = record {
  id = c.id;
  addr = some addr;
  client_port_min = c.client_port_min;
  client_port_max = c.client_port_max;
  used_ports = [];
}

-- One round of the loop over the nodes of the configuration. `resolve` is `net.ResolveTCPAddr`.
unfoldable pub add_node : (Text → Text → Option TcpAddr) → ℤ → Network → NodeConfig → Network
unfolding node_of_config show_int
add_node resolve node_index n c =
    elim (resolve n.transport_proto (c.ip ++ colon ∷ show_int c.server_port)) [
      | none ↦ n
      | some addr ↦
          if c.id == node_index
          then record n { node_index = node_of_config c addr }
          else record n { nodes = n.nodes ++ node_of_config c addr ∷ [] }
    ]

unfoldable pub add_nodes : (Text → Text → Option TcpAddr) → ℤ → Network → List NodeConfig → Network
unfolding add_node
add_nodes resolve node_index n [] = n
add_nodes resolve node_index n (c ∷ rest) =
    add_nodes resolve node_index (add_node resolve node_index n c) rest

-- the network before the loop
abbrev pub start_network : ConfigInstance → Network
start_network config = record {
  node_index = zero_node;
  nodes = [];
  connections = [];
  transport_proto = config.transport_proto;
}

-- The network, or nothing where `InitNetwork` returns its error.
unfoldable pub init_network : (Text → Text → Option TcpAddr) → ConfigInstance → ℤ → Option Network
unfolding add_nodes
init_network resolve config node_index =
    let n = add_nodes resolve node_index (start_network config) config.nodes in
    if not (n.node_index.id == node_index) then none else some n
