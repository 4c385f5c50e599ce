-- ===== src/Network/Server/Outgoing.antt =====
-- What a node's own roles send out (`srvHandleThisNodeOutMsg` of lab6/network/server.go).
use multi_paxos_work_in_prog.Common.{
  ℤ, int_eq, nat_eq, list_eq, ◌==◌, Bool, false, if◌then◌else◌, List, [], ◌∷◌, none, some,
}
use multi_paxos_work_in_prog.Common.GoMap.{lookup, insert}
use multi_paxos_work_in_prog.Common.Text.{codes}
use multi_paxos_work_in_prog.Detector.{Heartbeat}
use multi_paxos_work_in_prog.Paxos.{Prepare, Promise, Accept, Learn, DecidedValue}
use multi_paxos_work_in_prog.Network.{
  or_no_conn, CommProto, zero_comm_proto, Delivery, deliver_heartbeat, deliver_prepare,
  deliver_promise, deliver_accept, deliver_learn, msg_srv_out, write_to, close,
}
use multi_paxos_work_in_prog.Network.Server.{DistributedSrv, handle_decided_value}

-- What `srvHandleThisNodeOutMsg` waits for, but for the decided values and with them.
pub data Outgoing : Type 0 where
  hb_out : Bool → Heartbeat → Outgoing
  prepare_out : Prepare → Outgoing
  promise_out : Promise → Outgoing
  accept_out : Accept → Outgoing
  learn_out : Learn → Outgoing
  chosen_val_out : (ℤ → Bool) → DecidedValue → Outgoing
  srv_ldr_in : ℤ → Outgoing

-- the literals of `commProto`
abbrev pub heartbeat_msg : Heartbeat → CommProto
heartbeat_msg hb = record zero_comm_proto {
  msg_type = if hb.request then codes "REQ_HB" else codes "RES_HB";
  from_node_id = hb.from;
  to_node_id = hb.to;
}

abbrev pub prepare_msg : Prepare → CommProto
prepare_msg p = record zero_comm_proto {
  msg_type = codes "PREPARE";
  from_node_id = p.from;
  slot_id = p.slot;
  rnd = p.crnd;
}

abbrev pub promise_msg : Promise → CommProto
promise_msg p = record zero_comm_proto {
  msg_type = codes "PROMISE";
  from_node_id = p.from;
  to_node_id = p.to;
  rnd = p.rnd;
  slots = p.slots;
}

abbrev pub accept_msg : Accept → CommProto
accept_msg a = record zero_comm_proto {
  msg_type = codes "ACCEPT";
  from_node_id = a.from;
  slot_id = a.slot;
  rnd = a.rnd;
  val = a.val;
}

abbrev pub learn_msg : Learn → CommProto
learn_msg l = record zero_comm_proto {
  msg_type = codes "LEARN";
  from_node_id = l.from;
  slot_id = l.slot;
  rnd = l.rnd;
  val = l.val;
}

-- One round of the loop; the flag of a heartbeat says whether its write fails with `io.EOF`.
unfoldable pub handle_this_node_out_msg : DistributedSrv → Outgoing → DistributedSrv × List Delivery
unfolding handle_decided_value
handle_this_node_out_msg srv (hb_out eof hb) =
    if hb.request
    then (
      srv,
      (if hb.from == hb.to
            then deliver_heartbeat (record { from = hb.from; to = hb.to; request = false })
            else msg_srv_out (heartbeat_msg hb))
          ∷ [],
    )
    else elim (or_no_conn (lookup hb.to srv.cl_node_id_conn)) [
      | none ↦ (srv, [])
      | some conn ↦
          if eof
          then (
            record srv { cl_node_id_conn = insert hb.to none srv.cl_node_id_conn },
            write_to conn (heartbeat_msg hb) ∷ close conn ∷ [],
          )
          else (srv, write_to conn (heartbeat_msg hb) ∷ [])
    ]
handle_this_node_out_msg srv (prepare_out p) =
    (srv, deliver_prepare p ∷ msg_srv_out (prepare_msg p) ∷ [])
handle_this_node_out_msg srv (promise_out p) =
    (srv, (if srv.id == p.to then deliver_promise p else msg_srv_out (promise_msg p)) ∷ [])
handle_this_node_out_msg srv (accept_out a) =
    (srv, deliver_accept a ∷ msg_srv_out (accept_msg a) ∷ [])
handle_this_node_out_msg srv (learn_out l) = (srv, deliver_learn l ∷ msg_srv_out (learn_msg l) ∷ [])
handle_this_node_out_msg srv (chosen_val_out eof dcd) = handle_decided_value eof srv dcd
handle_this_node_out_msg srv (srv_ldr_in leader) = (record srv { cur_leader = leader }, [])
