-- ===== src/Network/Client.antt =====
-- lab6/network/client.go: the part of a node that writes its messages to the servers of its peers.
-- The results of dials, reads and writes are arguments; the gob encoding is outside the model.
pub mod Broadcast
pub mod Connecting
use multi_paxos_work_in_prog.Common.{
  ℤ, pos, int_eq, nat_eq, list_eq, ◌==◌, ◌||◌, Bool, true, false, if◌then◌else◌, List, [], ◌∷◌,
  ◌++◌, Option, none, some,
}
use multi_paxos_work_in_prog.Common.GoMap.{GoMap, lookup, insert}
use multi_paxos_work_in_prog.Common.Text.{Text, codes}
use multi_paxos_work_in_prog.Network.{
  Conn, node_of, ReadResult, read_eof, read_error, read_msg, addrs_by_node_id, or_empty, or_no_conn,
  CommProto, Delivery, write_to, close,
}

-- The fields but the channels.
pub record DistributedCl : Type 0 where
  pub id : ℤ
  pub server_ip_addr_conns : GoMap Text (Option Conn)

-- `clusterAddrConns`
abbrev pub cluster_addr_conns : GoMap Text (Option Conn)
cluster_addr_conns =
    (codes "152.94.1.100", none) ∷ (codes "152.94.1.110", none) ∷ (codes "152.94.1.118", none) ∷ []

-- `addr` is this node's address.
unfoldable pub init_client : Text → DistributedCl
init_client addr = record { id = node_of addr; server_ip_addr_conns = cluster_addr_conns }

-- `eof` says whether the write to a host fails with `io.EOF`.
unfoldable pub send_data_to_server :
    (Text → Bool) → DistributedCl → Text → Option Conn → CommProto → DistributedCl × List Delivery
send_data_to_server eof c host none msg = (c, [])
send_data_to_server eof c host (some conn) msg =
    if eof host
    then (
      record c { server_ip_addr_conns = insert host none c.server_ip_addr_conns },
      write_to conn msg ∷ close conn ∷ [],
    )
    else (c, write_to conn msg ∷ [])

-- the message as the loops for prepares and accepts send it to a host, and as that for learns does
abbrev pub addressed : Bool → Text → CommProto → CommProto
addressed true host msg = record msg { to_node_id = node_of host }
addressed false host msg = msg

-- The loops over the connections; `entries` is the order in which they meet them.
unfoldable pub send_to_each :
    Bool
    → (Text → Bool)
    → DistributedCl
    → CommProto
    → GoMap Text (Option Conn)
    → DistributedCl × List Delivery
unfolding send_data_to_server
send_to_each with_node eof c msg [] = (c, [])
send_to_each with_node eof c msg ((host, conn) ∷ entries) =
    let (c', out) = send_data_to_server eof c host conn (addressed with_node host msg) in
    let (c'', outs) = send_to_each with_node eof c' msg entries in (c'', out ++ outs)

-- The `switch` on the message type; another type sends nothing. `range` is the order in which the
-- run-time visits the connections.
unfoldable pub handle_outgoing_msg :
    (GoMap Text (Option Conn) → GoMap Text (Option Conn))
    → (Text → Bool)
    → DistributedCl
    → CommProto
    → DistributedCl × List Delivery
unfolding send_data_to_server send_to_each
handle_outgoing_msg range eof c msg =
    let host = or_empty (lookup msg.to_node_id addrs_by_node_id) in
    let conn = or_no_conn (lookup host c.server_ip_addr_conns) in
    if msg.msg_type == codes "REQ_HB"
    then send_data_to_server eof c host conn msg
    else if msg.msg_type == codes "PREPARE"
    then send_to_each true eof c msg (range c.server_ip_addr_conns)
    else if msg.msg_type == codes "PROMISE"
    then send_data_to_server eof c host conn msg
    else if msg.msg_type == codes "ACCEPT"
    then send_to_each true eof c msg (range c.server_ip_addr_conns)
    else if msg.msg_type == codes "LEARN"
    then send_to_each false eof c msg (range c.server_ip_addr_conns)
    else (c, [])

-- What `clHandleIncomingMsg` does with what it reads from a peer's server: a message with a type
-- goes on to `msgClIn`, and the end of the stream closes the connection.
unfoldable pub handle_incoming_msg :
    ReadResult → DistributedCl → Text → Conn → DistributedCl × List Delivery × Option CommProto
handle_incoming_msg read_eof c host conn = (
  record c { server_ip_addr_conns = insert host none c.server_ip_addr_conns },
  close conn ∷ [],
  none,
)
handle_incoming_msg read_error c host conn = (c, [], none)
handle_incoming_msg (read_msg msg) c host conn =
    (c, [], if msg.msg_type == [] then none else some msg)

-- The body of the inner loop of `connToServers`, with the goroutines that it starts for the
-- incoming messages of a host. `own` is this node's address, and a dial that fails is `none`.
unfoldable pub conn_to_server :
    (Text → Option Conn)
    → Text
    → DistributedCl
    → Text
    → Option Conn
    → DistributedCl × List (Text × Conn)
conn_to_server dials own c host (some conn) = (c, [])
conn_to_server dials own c host none = if host == own then (c, []) else elim (dials host) [
  | none ↦ (c, [])
  | some conn ↦ (
    record c { server_ip_addr_conns = insert host (some conn) c.server_ip_addr_conns },
    (host, conn) ∷ [],
  )
]

unfoldable pub conn_to_each :
    (Text → Option Conn)
    → Text
    → DistributedCl
    → GoMap Text (Option Conn)
    → DistributedCl × List (Text × Conn)
unfolding conn_to_server
conn_to_each dials own c [] = (c, [])
conn_to_each dials own c ((host, conn) ∷ entries) =
    let (c', started) = conn_to_server dials own c host conn in
    let (c'', rest) = conn_to_each dials own c' entries in (c'', started ++ rest)

-- One round of `connToServers`; `range` is the order in which the run-time visits the connections.
unfoldable pub conn_to_servers :
    (GoMap Text (Option Conn) → GoMap Text (Option Conn))
    → (Text → Option Conn)
    → Text
    → DistributedCl
    → DistributedCl × List (Text × Conn)
unfolding conn_to_each
conn_to_servers range dials own c = conn_to_each dials own c (range c.server_ip_addr_conns)
