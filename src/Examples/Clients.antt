-- ===== src/Examples/Clients.antt =====
-- Runs of the client of lab6/external_client_application/extClient.go.
use multi_paxos_work_in_prog.Common.{
  ℤ, pos, negsuc, int_eq, nat_eq, list_eq, ◌==◌, ◌≢◌, true, false, if◌then◌else◌, List, [], ◌∷◌,
  none, some, ◌≡◌, refl, arith, All,
}
use multi_paxos_work_in_prog.Common.Int.{int_beq}
use multi_paxos_work_in_prog.Common.Classes.{list_beq}
use multi_paxos_work_in_prog.Common.GoMap.{lookup}
use multi_paxos_work_in_prog.Common.Text.{Text, codes}
use multi_paxos_work_in_prog.Network.{
  CommProto, zero_comm_proto, read_msg, Delivery, deliver_client_value, write_to,
}
use multi_paxos_work_in_prog.Network.Server.{DistributedSrv, init_server, written, recv_ext_cl_msg}
use multi_paxos_work_in_prog.ExtClient.{
  DistributedExtCl, init_ext_client, dial, encode, close_conn, go_handle_incoming, go_send,
  Surroundings, choose_host, attempt, conn_loop, conn_to_server, client_value, client_request,
  send_data_to_server, handle_incoming_msg, ask, ask_amount, ask_transaction,
}
use multi_paxos_work_in_prog.ExtClient.Actions.{stops}
use multi_paxos_work_in_prog.ExtClient.Connecting.{ConnectsOrStops, conn_to_server_ends}
use multi_paxos_work_in_prog.ExtClient.Redirects.{redirection, connected_to, redirected_to_leader}
use multi_paxos_work_in_prog.ExtClient.Sequence.{handle_results, is_result, results_in_step}

-- the fourth dial succeeds
abbrev fourth_time : Surroundings
fourth_time = record { dials = λ k host. if k == 3 then some 7 else none; rand = λ k. pos 1 }

conn_to_server_ends_example :
    ConnectsOrStops fourth_time (conn_to_server fourth_time true init_ext_client)
unfolding init_ext_client
conn_to_server_ends_example = conn_to_server_ends fourth_time true init_ext_client refl

-- It has the connection, and is stopped.
connected_and_stopped :
    let (c, out) = conn_to_server fourth_time true init_ext_client in
    (c.ldr_node_conn ≡ some 7) × (stops out ≡ true)
unfolding conn_to_server conn_loop attempt choose_host init_ext_client list_beq lookup int_beq
connected_and_stopped = (refl, refl)

abbrev result_of : ℤ → CommProto
result_of n = record zero_comm_proto {
  txn_response = record {
    client_id = [];
    client_seq = n;
    txn_res = record { account_num = pos 5; balance = pos 10; error_string = [] };
  };
}

-- The client waits for the result 2, and the result 1 comes again before it.
abbrev ahead : DistributedExtCl
ahead = record init_ext_client { seq_num = pos 2 }

results_in_step_example :
    All
      (λ s. is_result s ≡ false)
      (handle_results ahead (result_of (pos 1) ∷ result_of (pos 2) ∷ [])).1
results_in_step_example =
    results_in_step ahead (result_of (pos 1) ∷ result_of (pos 2) ∷ []) 2 1 refl (refl, (refl, tt))
      (omega arith)

-- a client that has asked to deposit 10 in account 5
abbrev asking : DistributedExtCl
asking = record init_ext_client { usr_accnt_num = pos 5; usr_trans_type = pos 1; usr_amnt = pos 10 }

-- the first answer to each question is refused
asked :
    ask_transaction init_ext_client (negsuc 4 ∷ pos 5 ∷ pos 3 ∷ pos 1 ∷ negsuc 9 ∷ pos 10 ∷ [])
    ≡ some (asking, [])
unfolding ask_transaction ask ask_amount init_ext_client int_beq
asked = refl

abbrev network_up : Surroundings
network_up = record { dials = λ k host. some 9; rand = λ k. pos 0 }

-- Node 0 follows node 2.
abbrev follower : DistributedSrv
follower = record (init_server (pos 0)) { cur_leader = pos 2 }

abbrev leader : DistributedSrv
leader = init_server (pos 2)

abbrev own_addr : Text
own_addr = codes "152.94.1.120"

abbrev leader_host : Text
leader_host = codes "152.94.1.118"

follows_other : follower.cur_leader ≢ follower.id
unfolding init_server
follows_other e = absurd (ground (arith, e))

redirected_to_leader_example :
    ((rest : List Delivery) × ((recv_ext_cl_msg written follower own_addr 4
          (client_request own_addr asking)).1
        ≡ write_to 4 (redirection follower.id leader_host) ∷ rest))
    × (handle_incoming_msg network_up
          (read_msg (redirection follower.id leader_host))
          (record asking { ldr_node_conn = some 4 })
        ≡ (
          connected_to asking leader_host 9,
          close_conn 4 ∷ dial leader_host ∷ go_handle_incoming ∷ go_send ∷ [],
          false,
        ))
    × (send_data_to_server written own_addr (connected_to asking leader_host 9)
        ≡ (connected_to asking leader_host 9, encode 9 (client_request own_addr asking) ∷ []))
    × ((recv_ext_cl_msg written leader own_addr 9 (client_request own_addr asking)).1
        ≡ deliver_client_value (client_value own_addr asking) ∷ [])
unfolding init_server lookup int_beq
redirected_to_leader_example =
    redirected_to_leader written written network_up own_addr 4 9 follower leader asking leader_host
      follows_other refl refl refl refl
