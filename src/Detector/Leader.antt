-- ===== src/Detector/Leader.antt =====
-- lab3/detector/ld.go. The read-write lock is left out: each method is one step.
pub mod Election
pub mod Publishing
use multi_paxos_work_in_prog.Common.{
  ℕ, ℤ, negsuc, ltb, ltb_ℤ, int_eq, ◌==◌, not, Bool, true, false, if◌then◌else◌, List, [], ◌∷◌,
  ◌++◌, Option, none, some, length,
}
use multi_paxos_work_in_prog.Common.GoMap.{GoMap, lookup, insert, delete}
use multi_paxos_work_in_prog.Detector.{is_set}

-- A subscriber's channel is the list of what it holds, the oldest first.
pub record MonLeaderDetector : Type 0 where
  pub node_ids : List ℤ
  pub suspected : GoMap ℤ Bool
  pub leader_id : ℤ
  pub subscriber_chan : List (List ℤ)

-- The loop of `NewMonLeaderDetector` from a highest id on.
highest_from : ℤ → List ℤ → ℤ
highest_from leader_id [] = leader_id
highest_from leader_id (node_id ∷ rest) =
    highest_from (if ltb_ℤ leader_id node_id then node_id else leader_id) rest

unfoldable pub new_detector : List ℤ → MonLeaderDetector
unfolding highest_from
new_detector node_ids = record {
  node_ids = node_ids;
  suspected = [];
  leader_id = highest_from (negsuc 0) node_ids;
  subscriber_chan = [];
}

-- The loop of `leaderElection` from a highest rank on.
unfoldable pub rank_from : GoMap ℤ Bool → ℤ → List ℤ → ℤ
rank_from suspected highest [] = highest
rank_from suspected highest (node_id ∷ rest) =
    rank_from suspected
      (if is_set (lookup node_id suspected)
        then highest
        else if ltb_ℤ highest node_id
        then node_id
        else highest)
      rest

-- the capacity of a channel that `Subscribe` makes
abbrev pub buffer : ℕ
buffer = 8

-- `ch <- leader` for each channel; `none` is a send that waits for a reader.
unfoldable pub publish : ℤ → List (List ℤ) → Option (List (List ℤ))
publish leader [] = some []
publish leader (ch ∷ rest) =
    if ltb (length ch) buffer
    then elim (publish leader rest) [ none ↦ none | some chs ↦ some ((ch ++ leader ∷ []) ∷ chs) ]
    else none

-- `none` is an election that waits, with the lock held.
unfoldable pub leader_election : MonLeaderDetector → Option MonLeaderDetector
unfolding rank_from publish
leader_election m =
    let highest_rank = rank_from m.suspected (negsuc 0) m.node_ids in
    if m.leader_id == highest_rank then some m else elim (publish highest_rank m.subscriber_chan) [
      | none ↦ none
      | some chs ↦ some (record m { leader_id = highest_rank; subscriber_chan = chs })
    ]

unfoldable pub suspect : MonLeaderDetector → ℤ → Option MonLeaderDetector
unfolding leader_election
suspect m id = leader_election (record m { suspected = insert id true m.suspected })

unfoldable pub restore : MonLeaderDetector → ℤ → Option MonLeaderDetector
unfolding leader_election
restore m id = leader_election (record m { suspected = delete id m.suspected })

-- The index of the new channel is the number of subscribers so far.
unfoldable pub subscribe : MonLeaderDetector → MonLeaderDetector
subscribe m = record m { subscriber_chan = m.subscriber_chan ++ [] ∷ [] }

pub data Call : Type 0 where
  suspects restores : ℤ → Call
  subscribes : Call

unfoldable pub call : MonLeaderDetector → Call → Option MonLeaderDetector
unfolding suspect restore subscribe
call m (suspects id) = suspect m id
call m (restores id) = restore m id
call m subscribes = some (subscribe m)

unfoldable pub run : MonLeaderDetector → List Call → Option MonLeaderDetector
run m [] = some m
run m (c ∷ cs) = elim (call m c) [ none ↦ none | some m' ↦ run m' cs ]
