-- ===== src/Network/Server/Messages.antt =====
-- The messages of lab6/network/server.go between two nodes.
use multi_paxos_work_in_prog.Common.{
  ℤ, int_eq, list_eq, nat_eq, Bool, List, [], ◌∷◌, ◌++◌, All, ◌≡◌, ◌⊎◌, refl, arith, int_beq_iff,
}
use mathlib.Core.List.{append-nil}
use multi_paxos_work_in_prog.Common.Classes.{list_beq}
use multi_paxos_work_in_prog.Common.Text.{Text}
use multi_paxos_work_in_prog.Paxos.{Value, Response, DecidedValue}
use multi_paxos_work_in_prog.Network.{
  Conn, CommProto, Delivery, deliver_heartbeat, deliver_prepare, deliver_promise, deliver_accept,
  deliver_learn, deliver_client_value, increment_all_decided, msg_srv_out, write_to, close,
}
use multi_paxos_work_in_prog.Network.Server.{
  DistributedSrv, send_txn_response, apply_decided, execute, decided_from, handle_decided_value,
  handle_peer_in_msg, WriteResult, recv_ext_cl_msg,
}
use multi_paxos_work_in_prog.Network.Server.Outgoing.{
  handle_this_node_out_msg, Outgoing, hb_out, prepare_out, promise_out, accept_out, learn_out,
  chosen_val_out, srv_ldr_in,
}

-- the messages that leave the node, over the client part or over a connection
abbrev pub on_wire : List Delivery → List CommProto
on_wire [] = []
on_wire (msg_srv_out m ∷ o) = m ∷ on_wire o
on_wire (write_to c m ∷ o) = m ∷ on_wire o
on_wire (_ ∷ o) = on_wire o

-- what a role's output is for
abbrev pub meant : Outgoing → List Delivery
meant (hb_out eof hb) = deliver_heartbeat hb ∷ []
meant (prepare_out p) = deliver_prepare p ∷ []
meant (promise_out p) = deliver_promise p ∷ []
meant (accept_out a) = deliver_accept a ∷ []
meant (learn_out l) = deliver_learn l ∷ []
meant (chosen_val_out eof d) = []
meant (srv_ldr_in l) = []

-- A peer that gets the message only makes these deliveries.
abbrev pub Delivers : DistributedSrv → List Delivery → CommProto → Type 0
Delivers peer o m = handle_peer_in_msg peer m ≡ (peer, o)

abbrev Silent : DistributedSrv → List Delivery → Type 0
Silent peer o = All (Delivers peer []) (on_wire o)

Silent-append :
    (peer : DistributedSrv) (a b : List Delivery)
    → Silent peer a
    → Silent peer b
    → Silent peer (a ++ b)
Silent-append peer [] b h k = k
Silent-append peer (msg_srv_out m ∷ a) b h k = (h.0, Silent-append peer a b h.1 k)
Silent-append peer (write_to c m ∷ a) b h k = (h.0, Silent-append peer a b h.1 k)
Silent-append peer (increment_all_decided ∷ a) b h k = Silent-append peer a b h k
Silent-append peer (deliver_heartbeat x ∷ a) b h k = Silent-append peer a b h k
Silent-append peer (deliver_prepare x ∷ a) b h k = Silent-append peer a b h k
Silent-append peer (deliver_promise x ∷ a) b h k = Silent-append peer a b h k
Silent-append peer (deliver_accept x ∷ a) b h k = Silent-append peer a b h k
Silent-append peer (deliver_learn x ∷ a) b h k = Silent-append peer a b h k
Silent-append peer (deliver_client_value x ∷ a) b h k = Silent-append peer a b h k
Silent-append peer (close x ∷ a) b h k = Silent-append peer a b h k

send_txn_response-Silent :
    (peer : DistributedSrv) (eof : Bool) (s : DistributedSrv) (r : Response)
    → Silent peer (send_txn_response eof s r).1
unfolding send_txn_response handle_peer_in_msg list_beq
send_txn_response-Silent peer eof s r = ground arith

apply_decided-Silent :
    (peer : DistributedSrv) (eof : ℤ → Bool) (s : DistributedSrv) (d : DecidedValue)
    → Silent peer (apply_decided eof s d).1
unfolding apply_decided
apply_decided-Silent peer eof s d =
    let executed = record s { usr_accnt = (execute s.usr_accnt d.value).0 } in
    let response = (execute s.usr_accnt d.value).1 in
    ground (
      arith,
      Silent-append peer (send_txn_response (eof s.adu) executed response).1
          (increment_all_decided ∷ []) (send_txn_response-Silent peer (eof s.adu) executed response)
          tt,
    )

decided_from-Silent :
    (peer : DistributedSrv) (eof : ℤ → Bool) (s : DistributedSrv) (d : DecidedValue)
    (l : List DecidedValue)
    → Silent peer (decided_from eof s d l).1
unfolding decided_from
decided_from-Silent peer eof s d [] = ground (arith, apply_decided-Silent peer eof s d)
decided_from-Silent peer eof s d (x ∷ l) = ground (
  arith,
  Silent-append peer (apply_decided eof s d).1 (decided_from eof (apply_decided eof s d).0 x l).1
      (apply_decided-Silent peer eof s d)
      (decided_from-Silent peer eof (apply_decided eof s d).0 x l),
)

-- Whatever message leaves a node for an output of one of its roles, a peer that gets it hands its
-- own role exactly that output: its heartbeat, prepare, promise, accept or learn.
pub messages_arrive :
    (srv peer : DistributedSrv) (o : Outgoing)
    → All (Delivers peer (meant o)) (on_wire (handle_this_node_out_msg srv o).1)
unfolding handle_this_node_out_msg handle_peer_in_msg list_beq
messages_arrive srv peer (hb_out eof hb) = ground arith
messages_arrive srv peer (prepare_out p) = (refl, tt)
messages_arrive srv peer (promise_out p) = ground arith
messages_arrive srv peer (accept_out a) = (refl, tt)
messages_arrive srv peer (learn_out l) = (refl, tt)
messages_arrive srv peer (chosen_val_out eof d) =
    unfold handle_decided_value in decided_from-Silent peer eof srv d srv.dcd_val_in_list
messages_arrive srv peer (srv_ldr_in l) = tt

-- the values that go to the proposer
abbrev pub client_values : List Delivery → List Value
client_values [] = []
client_values (deliver_client_value v ∷ o) = v ∷ client_values o
client_values (_ ∷ o) = client_values o

-- A message of an external client brings the proposer a value only at the node that takes itself
-- for the leader; the values that go to the proposer are those added to the list of client values.
pub client_values_at_leader :
    (result : WriteResult) (srv : DistributedSrv) (host : Text) (conn : Conn) (m : CommProto)
    → let (srv', out) = recv_ext_cl_msg result srv host conn m in
      (srv'.cl_val_in_list ≡ srv.cl_val_in_list ++ client_values out)
      × ((client_values out ≡ []) ⊎ (srv.cur_leader ≡ srv.id))
unfolding recv_ext_cl_msg handle_peer_in_msg
client_values_at_leader result srv host conn m =
    ground (arith, int_beq_iff srv.cur_leader srv.id, append-nil srv.cl_val_in_list)
