-- ===== src/Examples/Servers.antt =====
-- Runs of the server and the client part of lab6/network.
use multi_paxos_work_in_prog.Common.{
  ◌==◌, list_eq, nat_eq, none, some, count, ◌+◌, ℤ, pos, Bool, true, false, [], ◌∷◌, ◌≡◌, refl,
  length, All,
}
use multi_paxos_work_in_prog.Common.Int.{add_int}
use multi_paxos_work_in_prog.Common.Text.{codes}
use multi_paxos_work_in_prog.Bank.{deposit}
use multi_paxos_work_in_prog.Paxos.{zero_value, DecidedValue}
use multi_paxos_work_in_prog.Common.Classes.{list_beq}
use multi_paxos_work_in_prog.Common.GoMap.{lookup, Distinct, Listing-refl}
use multi_paxos_work_in_prog.Network.Client.{DistributedCl, handle_outgoing_msg}
use multi_paxos_work_in_prog.Network.Client.Broadcast.{
  is_open, holds, written_to, SameEffect, prepares, broadcast_reaches_all,
}
use multi_paxos_work_in_prog.Network.{CommProto, zero_comm_proto}
use multi_paxos_work_in_prog.Network.Server.{DistributedSrv, init_server, handle_decided_value}
use multi_paxos_work_in_prog.Network.Server.Outgoing.{
  handle_this_node_out_msg, Outgoing, accept_out,
}
use multi_paxos_work_in_prog.Network.Server.Messages.{on_wire, meant, Delivers, messages_arrive}
use multi_paxos_work_in_prog.Network.Server.Applying.{increments, advance, Handled, apply_all}
use multi_paxos_work_in_prog.Network.Server.Decided.{
  decided_in_step, in_order_applied, SameState, after_decided, replicas_agree,
}

abbrev decision : ℤ → DecidedValue
decision s = record {
  slot_id = s;
  value = record zero_value { account_num = pos 7; txn = record { op = deposit; amount = pos 10 } };
}

abbrev all_written : ℤ → Bool
all_written a = false

-- a server with values for the slots 2 and 3 that wait
abbrev waiting : DistributedSrv
waiting = record (init_server (pos 0)) {
  dcd_val_in_list = decision (pos 2) ∷ decision (pos 3) ∷ [];
}

decided_in_step_example :
    let (s', out) = handle_decided_value all_written waiting (decision (pos 1)) in
    Handled all_written waiting (decision (pos 1) ∷ waiting.dcd_val_in_list) (s', out)
    × (s'.adu ≡ advance (increments out) waiting.adu)
    × (increments out + length s'.dcd_val_in_list ≡ 3)
decided_in_step_example = decided_in_step all_written waiting (decision (pos 1))

in_order_applied_example :
    let (s', out) = apply_all all_written waiting (decision (pos 1) ∷ waiting.dcd_val_in_list) in
    handle_decided_value all_written waiting (decision (pos 1))
    ≡ (record s' { dcd_val_in_list = [] }, out)
unfolding init_server add_int
in_order_applied_example =
    in_order_applied all_written waiting (decision (pos 1)) (refl, (refl, (refl, tt)))

-- another node, whose writes fail
abbrev replica : DistributedSrv
replica = record waiting { id = pos 1 }

abbrev all_failed : ℤ → Bool
all_failed a = true

replicas_agree_example :
    SameState
      (after_decided waiting ((all_written, decision (pos 1)) ∷ []))
      (after_decided replica ((all_failed, decision (pos 1)) ∷ []))
replicas_agree_example =
    replicas_agree waiting replica ((all_written, decision (pos 1)) ∷ [])
      ((all_failed, decision (pos 1)) ∷ [])
      (record { adu = refl; usr_accnt = refl; dcd_val_in_list = refl }) refl

abbrev passed : DistributedSrv
passed = record (init_server (pos 0)) { adu = pos 4 }

abbrev accept : Outgoing
accept = accept_out (record { from = pos 0; slot = pos 1; rnd = pos 3; val = zero_value })

messages_arrive_example :
    All (Delivers replica (meant accept)) (on_wire (handle_this_node_out_msg waiting accept).1)
messages_arrive_example = messages_arrive waiting replica accept

abbrev client_message : CommProto
client_message = record zero_comm_proto { msg_type = codes "EXTCLVALUE" }

-- a client part with connections to two peers, of which one fails
abbrev connected : DistributedCl
connected = record {
  id = pos 0;
  server_ip_addr_conns =
      (codes "152.94.1.100", none)
      ∷ (codes "152.94.1.110", some 3)
      ∷ (codes "152.94.1.118", some 4)
      ∷ [];
}

connected-Distinct : Distinct connected.server_ip_addr_conns
unfolding lookup list_beq
connected-Distinct = (refl, (refl, (refl, tt)))

abbrev prepare_message : CommProto
prepare_message = record zero_comm_proto {
  msg_type = codes "PREPARE";
  from_node_id = pos 0;
  rnd = pos 3;
}

broadcast_reaches_all_example :
    let out =
      (handle_outgoing_msg
        (λ m. m)
        (λ host. host == codes "152.94.1.118")
        connected
        prepare_message).1 in
    (length (on_wire out) ≡ count is_open connected.server_ip_addr_conns)
    × (count (λ k. k == 4) (written_to out) ≡ count (holds 4) connected.server_ip_addr_conns)
    × SameEffect replica prepare_message (on_wire out)
broadcast_reaches_all_example =
    broadcast_reaches_all (λ m. m) (λ host. host == codes "152.94.1.118") connected replica
      prepare_message 4 connected-Distinct
      (Listing-refl connected.server_ip_addr_conns connected-Distinct) (prepares refl)
