-- ===== src/Detector/Failure.antt =====
-- lab3/detector/fd.go.
pub mod Timeouts
use multi_paxos_work_in_prog.Common.{
  ℤ, int_eq, ◌==◌, not, ◌&&◌, Bool, true, false, if◌then◌else◌, List, [], ◌∷◌, ◌++◌, Option, none,
  some,
}
use multi_paxos_work_in_prog.Common.Int.{add_int}
use multi_paxos_work_in_prog.Common.GoMap.{GoMap, lookup, insert, delete}
use multi_paxos_work_in_prog.Detector.{Heartbeat, is_set}

-- The fields but the channels, the ticker and the hook. The calls of `sr` and the heartbeats that
-- are sent are the outputs of a step; durations are in nanoseconds.
pub record EvtFailureDetector : Type 0 where
  pub id : ℤ
  pub node_ids : List ℤ
  pub alive : GoMap ℤ Bool
  pub suspected : GoMap ℤ Bool
  pub delay : ℤ
  pub delta : ℤ

pub data Output : Type 0 where
  hb_send : Heartbeat → Output
  sr_suspect sr_restore : ℤ → Output

-- the loop that sets every node alive
all_alive : GoMap ℤ Bool → List ℤ → GoMap ℤ Bool
all_alive alive [] = alive
all_alive alive (n_id ∷ rest) = all_alive (insert n_id true alive) rest

unfoldable pub new_failure_detector : ℤ → List ℤ → ℤ → EvtFailureDetector
unfolding all_alive
new_failure_detector id node_ids delta = record {
  id = id;
  node_ids = node_ids;
  alive = all_alive [] node_ids;
  suspected = [];
  delay = delta;
  delta = delta;
}

-- The loop over `alive` that makes the delay longer at the first node that is suspected too;
-- `entries` is the order in which it meets the nodes.
unfoldable pub longer_delay : EvtFailureDetector → GoMap ℤ Bool → ℤ
longer_delay e [] = e.delay
longer_delay e ((a_id, b) ∷ entries) =
    let rest = longer_delay e entries in
    elim (lookup a_id e.suspected) [ some s ↦ add_int e.delay e.delta | none ↦ rest ]

-- One round of the loop over the nodes, but for the heartbeat request.
unfoldable pub check_node : GoMap ℤ Bool → GoMap ℤ Bool → ℤ → GoMap ℤ Bool × List Output
check_node alive suspected p =
    if not (is_set (lookup p alive)) && not (is_set (lookup p suspected))
    then (insert p true suspected, sr_suspect p ∷ [])
    else if is_set (lookup p alive) && is_set (lookup p suspected)
    then (delete p suspected, sr_restore p ∷ [])
    else (suspected, [])

unfoldable pub request_to : ℤ → ℤ → Output
request_to id p = hb_send (record { to = p; from = id; request = true })

-- The loop over the nodes: the nodes suspected after it and its outputs in their order.
unfoldable pub check_nodes : ℤ → GoMap ℤ Bool → GoMap ℤ Bool → List ℤ → GoMap ℤ Bool × List Output
unfolding check_node request_to
check_nodes id alive suspected [] = (suspected, [])
check_nodes id alive suspected (p ∷ rest) =
    let (suspected', out) = check_node alive suspected p in
    let (suspected'', outs) = check_nodes id alive suspected' rest in
    (suspected'', out ++ request_to id p ∷ outs)

-- `range` is the order in which the run-time visits `alive`.
unfoldable pub timeout :
    (GoMap ℤ Bool → GoMap ℤ Bool) → EvtFailureDetector → EvtFailureDetector × List Output
unfolding longer_delay check_nodes
timeout range e =
    let (suspected, out) = check_nodes e.id e.alive e.suspected e.node_ids in
    (record e { delay = longer_delay e (range e.alive); suspected = suspected; alive = [] }, out)

-- What the run loop of `Start` does with a heartbeat.
unfoldable pub handle_heartbeat : EvtFailureDetector → Heartbeat → EvtFailureDetector × List Output
handle_heartbeat e hb =
    if hb.request
    then (e, hb_send (record { to = hb.from; from = e.id; request = false }) ∷ [])
    else (record e { alive = insert hb.from true e.alive }, [])
