-- ===== src/Application.antt =====
-- lab6/application/app.go: the application, which follows the leader that lab3/detector/ld.go
-- publishes. Its loop takes one value at a time from the channel that `Subscribe` gives it.
pub mod Following
use multi_paxos_work_in_prog.Common.{
  ℕ, zero, suc, ℤ, negsuc, Bool, List, [], ◌∷◌, ◌++◌, Option, none, some, ◌>>=◌, ◌≡◌, refl, sym, ap,
  subst, ◌∙◌, ◌⊎◌, inl, inr, map, Option-cases,
}
use multi_paxos_work_in_prog.Common.GoMap.{insert, delete}
use multi_paxos_work_in_prog.Detector.Leader.{
  MonLeaderDetector, new_detector, leader_election, suspect, restore, subscribe,
}
use multi_paxos_work_in_prog.Detector.Leader.Publishing.{election_publishes}

-- The fields but the detector and the `stop` channel.
pub record DistributedApp : Type 0 where
  pub leader : ℤ

unfoldable pub init_app : DistributedApp
init_app = record { leader = negsuc 0 }

-- What the loop of `Start` does with a leader that it gets.
unfoldable pub got_leader : DistributedApp → ℤ → DistributedApp
got_leader a leader = record a { leader = leader }

-- The detector and the application. The application subscribes before the proposer does, so that its
-- channel is the first.
pub record Watched : Type 0 where
  pub detector : MonLeaderDetector
  pub app : DistributedApp

-- A receive from the channel; from an empty one it waits, which changes nothing.
unfoldable pub receive : Watched → List (List ℤ) → Watched
unfolding got_leader
receive w [] = w
receive w ([] ∷ rest) = w
receive w ((leader ∷ ch) ∷ rest) = record {
  detector = record w.detector { subscriber_chan = ch ∷ rest };
  app = got_leader w.app leader;
}

-- What is left of a channel after a receive.
abbrev pub taken : List ℤ → List ℤ
taken [] = []
taken (leader ∷ ch) = ch

-- The owner of the channel at an index, from 0, receives.
unfoldable pub take_at : ℕ → List (List ℤ) → List (List ℤ)
take_at n [] = []
take_at zero (ch ∷ rest) = taken ch ∷ rest
take_at (suc n) (ch ∷ rest) = ch ∷ take_at n rest

-- The last two are somebody else who subscribes, and the n-th other subscriber who receives.
pub data Event : Type 0 where
  suspects restores : ℤ → Event
  receives subscribes : Event
  other_receives : ℕ → Event

abbrev pub with_detector : Watched → MonLeaderDetector → Option Watched
with_detector w m = some (record w { detector = m })

-- A call of the detector that waits for the application is `none`.
unfoldable pub step : Watched → Event → Option Watched
step w (suspects id) = suspect w.detector id >>= with_detector w
step w (restores id) = restore w.detector id >>= with_detector w
step w receives = some (receive w w.detector.subscriber_chan)
step w subscribes = with_detector w (subscribe w.detector)
step w (other_receives n) =
    let chans = take_at (suc n) w.detector.subscriber_chan in
    with_detector w (record w.detector { subscriber_chan = chans })

unfoldable pub run : Watched → List Event → Option Watched
run w [] = some w
run w (e ∷ es) = step w e >>= λ w'. run w' es

-- `Start` on a new detector
unfoldable pub start : List ℤ → Watched
start node_ids = record { detector = subscribe (new_detector node_ids); app = init_app }
