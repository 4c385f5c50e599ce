-- ===== src/Network/Server.antt =====
-- lab6/network/server.go: the handlers, each as one step on the server's state. They run as
-- goroutines; the model takes each as a whole.
pub mod Outgoing
pub mod Messages
pub mod Applying
pub mod Decided
pub mod Gaps
use multi_paxos_work_in_prog.Common.{
  ℕ, ℤ, pos, int_eq, nat_eq, list_eq, ltb_ℤ, ◌==◌, not, Bool, true, false, if◌then◌else◌, List, [],
  ◌∷◌, ◌++◌, Option, none, some,
}
use multi_paxos_work_in_prog.Common.Int.{add_int}
use multi_paxos_work_in_prog.Common.GoMap.{GoMap, lookup, insert}
use multi_paxos_work_in_prog.Common.Text.{Text, codes}
use multi_paxos_work_in_prog.Bank.{Account, process}
use multi_paxos_work_in_prog.Detector.{Heartbeat}
use multi_paxos_work_in_prog.Paxos.{Value, Response, Prepare, Promise, Accept, Learn, DecidedValue}
use multi_paxos_work_in_prog.Network.{
  node_of, ReadResult, read_eof, read_error, read_msg, Conn, node_ids_by_addr, addrs_by_node_id,
  or_empty, or_no_conn, CommProto, zero_comm_proto, Delivery, deliver_heartbeat, deliver_prepare,
  deliver_promise, deliver_accept, deliver_learn, deliver_client_value, increment_all_decided,
  msg_srv_out, write_to, close,
}

-- The fields but the listener, the channels, the roles and the failure detector.
pub record DistributedSrv : Type 0 where
  pub id : ℤ
  pub cl_node_id_conn : GoMap ℤ (Option Conn)
  pub ext_cl_addr_conn : GoMap Text (Option Conn)
  pub send_cl_val : Bool
  pub cur_leader : ℤ
  pub adu : ℤ
  pub usr_accnt : GoMap ℤ Account
  pub cl_val_in_list : List Value
  pub dcd_val_in_list : List DecidedValue

-- `id` is what the node's address is mapped to.
unfoldable pub init_server : ℤ → DistributedSrv
init_server id = record {
  id = id;
  cl_node_id_conn = [];
  ext_cl_addr_conn = [];
  send_cl_val = true;
  cur_leader = id;
  adu = pos 0;
  usr_accnt = [];
  cl_val_in_list = [];
  dcd_val_in_list = [];
}

-- A connection from the address `host`.
unfoldable pub new_client_conn : DistributedSrv → Text → Conn → DistributedSrv
new_client_conn srv host conn = elim (lookup host node_ids_by_addr) [
  | none ↦ record srv { ext_cl_addr_conn = insert host (some conn) srv.ext_cl_addr_conn }
  | some node ↦ record srv { cl_node_id_conn = insert node (some conn) srv.cl_node_id_conn }
]

-- `eof` says whether the write fails with `io.EOF`.
unfoldable pub send_txn_response : Bool → DistributedSrv → Response → DistributedSrv × List Delivery
send_txn_response eof srv response =
    elim (or_no_conn (lookup response.client_id srv.ext_cl_addr_conn)) [
      | none ↦ (srv, [])
      | some conn ↦
          let reply = record zero_comm_proto {
            msg_type = codes "TRANSACTION_RESULT";
            from_node_id = srv.id;
            txn_response = response;
          } in
          if eof
          then (
            record srv { ext_cl_addr_conn = insert response.client_id none srv.ext_cl_addr_conn },
            write_to conn reply ∷ close conn ∷ [],
          )
          else (srv, write_to conn reply ∷ [])
    ]

-- the account, or a new one
unfoldable pub account_of : ℤ → Option Account → Account
account_of number none = record { number = number; balance = pos 0 }
account_of number (some account) = account

-- The bank's part of `srvHandleDecidedValue`.
unfoldable pub execute : GoMap ℤ Account → Value → GoMap ℤ Account × Response
unfolding account_of
execute accounts v =
    let account = account_of v.account_num (lookup v.account_num accounts) in
    let (account', result) = process account v.txn in
    (
      insert v.account_num account' accounts,
      record { client_id = v.client_id; client_seq = v.client_seq; txn_res = result },
    )

-- What `srvHandleDecidedValue` does with a value that is due. `eof` says how the write of a
-- response fares that is made at a value of `adu`.
unfoldable pub apply_decided :
    (ℤ → Bool) → DistributedSrv → DecidedValue → DistributedSrv × List Delivery
unfolding execute send_txn_response
apply_decided eof srv dcd =
    let (accounts, response) = execute srv.usr_accnt dcd.value in
    let executed = record srv { usr_accnt = accounts } in
    let (srv', out) =
      if dcd.value.noop
      then (srv, [])
      else if srv.cur_leader == srv.id
      then send_txn_response (eof srv.adu) executed response
      else (executed, []) in
    (record srv' { adu = add_int srv'.adu (pos 1) }, out ++ increment_all_decided ∷ [])

-- `int(dcdVal.SlotID) > (srv.adu + 1)`
unfoldable pub is_early : DistributedSrv → DecidedValue → Bool
is_early srv dcd = ltb_ℤ (add_int srv.adu (pos 1)) dcd.slot_id

-- `srvHandleDecidedValue` with the values that wait in `pending`; its calls of itself take the
-- values from the front.
unfoldable pub decided_from :
    (ℤ → Bool) → DistributedSrv → DecidedValue → List DecidedValue → DistributedSrv × List Delivery
unfolding is_early apply_decided
decided_from eof srv dcd [] =
    if is_early srv dcd
    then (record srv { dcd_val_in_list = dcd ∷ [] }, [])
    else let (srv', out) = apply_decided eof srv dcd in (record srv' { dcd_val_in_list = [] }, out)
decided_from eof srv dcd (next ∷ pending) =
    let (srv', out) = apply_decided eof srv dcd in
    let (srv'', outs) = decided_from eof srv' next pending in
    if is_early srv dcd
    then (record srv { dcd_val_in_list = (next ∷ pending) ++ dcd ∷ [] }, [])
    else (srv'', out ++ outs)

unfoldable pub handle_decided_value :
    (ℤ → Bool) → DistributedSrv → DecidedValue → DistributedSrv × List Delivery
unfolding decided_from
handle_decided_value eof srv dcd = decided_from eof srv dcd srv.dcd_val_in_list

-- The `switch` on the message type; another type does nothing.
unfoldable pub handle_peer_in_msg : DistributedSrv → CommProto → DistributedSrv × List Delivery
handle_peer_in_msg srv m =
    if m.msg_type == codes "REQ_HB"
    then (
      srv,
      deliver_heartbeat (record { from = m.from_node_id; to = m.to_node_id; request = true }) ∷ [],
    )
    else if m.msg_type == codes "RES_HB"
    then (
      srv,
      deliver_heartbeat (record { from = m.from_node_id; to = m.to_node_id; request = false }) ∷ [],
    )
    else if m.msg_type == codes "PREPARE"
    then (
      srv,
      deliver_prepare (record { from = m.from_node_id; slot = m.slot_id; crnd = m.rnd }) ∷ [],
    )
    else if m.msg_type == codes "PROMISE"
    then (
      srv,
      deliver_promise
            (record { to = m.to_node_id; from = m.from_node_id; rnd = m.rnd; slots = m.slots })
          ∷ [],
    )
    else if m.msg_type == codes "ACCEPT"
    then (
      srv,
      deliver_accept (record { from = m.from_node_id; slot = m.slot_id; rnd = m.rnd; val = m.val })
          ∷ [],
    )
    else if m.msg_type == codes "LEARN"
    then (
      srv,
      deliver_learn (record { from = m.from_node_id; slot = m.slot_id; rnd = m.rnd; val = m.val })
          ∷ [],
    )
    else if m.msg_type == codes "EXTCLVALUE"
    then (
      record srv { cl_val_in_list = srv.cl_val_in_list ++ m.val ∷ [] },
      deliver_client_value m.val ∷ [],
    )
    else (srv, [])

-- What `srvRecvPeerMsg` does with what it reads from the peer at the address `host`.
unfoldable pub recv_peer_msg :
    ReadResult → DistributedSrv → Text → Conn → DistributedSrv × List Delivery
unfolding handle_peer_in_msg
recv_peer_msg read_eof srv host conn = (
  record srv { cl_node_id_conn = insert (node_of host) none srv.cl_node_id_conn },
  close conn ∷ [],
)
recv_peer_msg read_error srv host conn = (srv, [])
recv_peer_msg (read_msg m) srv host conn =
    if m.msg_type == [] then (srv, []) else handle_peer_in_msg srv m

-- How a write of a redirection fares.
pub data WriteResult : Type 0 where
  written eof_error other_error : WriteResult

-- What `srvRecvExtClMsg` does with a message from an external client: another node's leadership
-- makes it redirect the client, and else the message goes on to `srvHandlePeerInMsg`.
unfoldable pub recv_ext_cl_msg :
    WriteResult → DistributedSrv → Text → Conn → CommProto → DistributedSrv × List Delivery
unfolding handle_peer_in_msg
recv_ext_cl_msg result srv host conn m =
    let redirect = write_to conn (record zero_comm_proto {
      msg_type = codes "REDIRECT";
      from_node_id = srv.id;
      ip_addr = or_empty (lookup srv.cur_leader addrs_by_node_id);
    }) in
    let closed = record srv { ext_cl_addr_conn = insert host none srv.ext_cl_addr_conn } in
    if not (srv.cur_leader == srv.id)
    then elim result [
      | written ↦ (closed, redirect ∷ close conn ∷ [])
      | eof_error ↦ (closed, redirect ∷ close conn ∷ [])
      | other_error ↦ (srv, redirect ∷ [])
    ]
    else if m.msg_type == []
    then (srv, [])
    else handle_peer_in_msg srv m

-- What `srvRecvExtClMsg` does with what it reads.
unfoldable pub recv_ext_cl :
    ReadResult → WriteResult → DistributedSrv → Text → Conn → DistributedSrv × List Delivery
unfolding recv_ext_cl_msg
recv_ext_cl read_eof result srv host conn =
    (record srv { ext_cl_addr_conn = insert host none srv.ext_cl_addr_conn }, close conn ∷ [])
recv_ext_cl read_error result srv host conn = (srv, [])
recv_ext_cl (read_msg m) result srv host conn = recv_ext_cl_msg result srv host conn m
