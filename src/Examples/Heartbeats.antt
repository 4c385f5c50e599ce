-- ===== src/Examples/Heartbeats.antt =====
-- Messages between two nodes of a configuration of lab3/network, and lines of lab3/logging.
use multi_paxos_work_in_prog.Common.{
  pos, int_eq, nat_eq, list_eq, Bool, true, false, [], ◌∷◌, none, some, ◌≡◌, refl,
}
use multi_paxos_work_in_prog.Common.Int.{int_beq}
use multi_paxos_work_in_prog.Common.GoMap.{lookup}
use multi_paxos_work_in_prog.Common.Text.{Text, codes}
use multi_paxos_work_in_prog.Detector.{is_set}
use multi_paxos_work_in_prog.Detector.Failure.{EvtFailureDetector, timeout}
use multi_paxos_work_in_prog.PeerNetwork.{Conn, Network, node_of_config}
use multi_paxos_work_in_prog.PeerNetwork.Addresses.{port_of, split_at, last, atoi, read_digits}
use multi_paxos_work_in_prog.PeerNetwork.Connecting.{
  accept_conn, get_node_id, cleanup_conn, node_id_of_text, node_with_port,
}
use multi_paxos_work_in_prog.PeerNetwork.Sending.{Message, wrote, Link, broadcast}
use multi_paxos_work_in_prog.PeerNetwork.Broadcasting.{broadcast-copies}
use multi_paxos_work_in_prog.PeerNetwork.Heartbeats.{net_msg, exchange, answered_not_suspected}
use multi_paxos_work_in_prog.PeerNetwork.Replacing.{newer_conn_dropped}
use multi_paxos_work_in_prog.Examples.Peers.{
  one_host, entry_1, entry_2, config, network_of, conn_7, healthy_1, node_1_made,
}

-- The nodes 1 and 2 with a connection to each other.
abbrev connected_1 : Network
connected_1 = record (network_of entry_1 entry_2) { connections = (pos 2, conn_7) ∷ [] }

abbrev connected_2 : Network
connected_2 = record (network_of entry_2 entry_1) { connections = (pos 1, conn_7) ∷ [] }

-- everything is taken
abbrev open_link : Link Bool
open_link = record { marshals = λ m. true; writes = λ conn m. true }

abbrev greeting : Message Bool
greeting = record {
  to = pos 0;
  from = pos 1;
  msg = codes "hello";
  kind = codes "text";
  request = false;
  payload = false;
}

broadcast-copies_example :
    broadcast open_link connected_1 greeting ≡ wrote conn_7 (record greeting { to = pos 2 }) ∷ []
unfolding lookup int_beq node_of_config
broadcast-copies_example =
    broadcast-copies open_link one_host config (pos 1) (network_of entry_1 entry_2) connected_1
      greeting node_1_made refl refl

abbrev detector_1 : EvtFailureDetector
detector_1 = record {
  id = pos 1;
  node_ids = pos 1 ∷ pos 2 ∷ [];
  alive = [];
  suspected = (pos 2, true) ∷ [];
  delay = pos 1000;
  delta = pos 1000;
}

abbrev detector_2 : EvtFailureDetector
detector_2 = record detector_1 { id = pos 2; suspected = [] }

answered_not_suspected_example :
    let after = exchange false open_link connected_1 connected_2 detector_1 detector_2 in
    (is_set (lookup (pos 2) after.alive) ≡ true)
    × (is_set (lookup (pos 2) (timeout (λ l. l) after).0.suspected) ≡ false)
unfolding net_msg lookup int_beq node_of_config
answered_not_suspected_example =
    answered_not_suspected false open_link connected_1 connected_2 detector_1 detector_2 (λ l. l)
      (record {
        foreign = λ e. cc e;
        conn = conn_7;
        connected = refl;
        marshalled = refl;
        written = refl;
      })
      (record {
        foreign = λ e. cc e;
        conn = conn_7;
        connected = refl;
        marshalled = refl;
        written = refl;
      })
      refl

abbrev remote_2 : Text
remote_2 = codes "10.0.0.2:20"

remote_2_known : get_node_id remote_2 (network_of entry_1 entry_2) ≡ some (pos 2)
unfolding get_node_id node_id_of_text node_with_port node_of_config port_of split_at last atoi
    read_digits
remote_2_known = refl

abbrev conn_8 : Conn
conn_8 = record conn_7 { handle = pos 8 }

newer_conn_dropped_example :
    let n' = (accept_conn remote_2 conn_8 (network_of entry_1 entry_2)).0 in
    (lookup (pos 2) n'.connections ≡ some conn_8)
    × ((n'' : Network) × (cleanup_conn conn_7 (pos 2) n' ≡ some n'')
        × (lookup (pos 2) n''.connections ≡ none))
newer_conn_dropped_example =
    newer_conn_dropped entry_1 (network_of entry_1 entry_2) remote_2 (pos 2) conn_7 conn_8 healthy_1
      remote_2_known
