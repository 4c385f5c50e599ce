-- ===== src/Examples/Detectors.antt =====
-- Runs of the detectors of lab3/detector.
use multi_paxos_work_in_prog.Common.{
  ℤ, pos, int_eq, not, true, if◌then◌else◌, List, [], ◌∷◌, Option, none, some, ◌≡◌, refl,
}
use multi_paxos_work_in_prog.Common.Int.{int_beq}
use multi_paxos_work_in_prog.Common.GoMap.{lookup, insert, delete}
use multi_paxos_work_in_prog.Detector.{is_set}
use multi_paxos_work_in_prog.Detector.Leader.{
  MonLeaderDetector, new_detector, rank_from, publish, leader_election, suspect, restore, subscribe,
  Call, suspects, restores, subscribes, call, run,
}
use multi_paxos_work_in_prog.Detector.Leader.Election.{Highest, leader-Highest}
use multi_paxos_work_in_prog.Detector.Failure.{EvtFailureDetector, new_failure_detector, timeout}
use multi_paxos_work_in_prog.Detector.Failure.Timeouts.{
  member, suspicions, change, timeout-suspected,
}

abbrev nodes : List ℤ
nodes = pos 0 ∷ pos 2 ∷ pos 1 ∷ []

abbrev calls : List Call
calls = subscribes ∷ suspects (pos 2) ∷ suspects (pos 1) ∷ restores (pos 1) ∷ []

abbrev ran : Option MonLeaderDetector → MonLeaderDetector
ran none = new_detector nodes
ran (some m) = m

abbrev watcher : MonLeaderDetector
watcher = ran (run (new_detector nodes) calls)

watcher_ran : run (new_detector nodes) calls ≡ some watcher
unfolding run call suspect restore subscribe leader_election rank_from publish new_detector lookup
    insert delete int_beq
watcher_ran = refl

leader-Highest_example : Highest watcher.suspected watcher.leader_id nodes
leader-Highest_example = leader-Highest nodes calls watcher_ran

-- a detector that has heard from nodes 0 and 1, and suspects node 1
abbrev monitor : EvtFailureDetector
monitor = record (new_failure_detector (pos 0) nodes (pos 5)) {
  alive = (pos 0, true) ∷ (pos 1, true) ∷ [];
  suspected = (pos 1, true) ∷ [];
}

timeout-suspected_example :
    let (e', out) = timeout (λ m. m) monitor in
    (is_set (lookup (pos 2) e'.suspected) ≡ (
      if member (pos 2) monitor.node_ids
      then not (is_set (lookup (pos 2) monitor.alive))
      else is_set (lookup (pos 2) monitor.suspected)))
    × (suspicions (pos 2) out
        ≡ change (is_set (lookup (pos 2) monitor.suspected)) (is_set (lookup (pos 2) e'.suspected)))
    × (lookup (pos 2) e'.alive ≡ none)
timeout-suspected_example = timeout-suspected (λ m. m) monitor (pos 2)
