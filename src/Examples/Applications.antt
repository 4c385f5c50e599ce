-- ===== src/Examples/Applications.antt =====
-- Runs of the application of lab6/application/app.go.
use multi_paxos_work_in_prog.Common.{ℤ, pos, negsuc, List, [], ◌∷◌, some, ◌>>=◌, ◌≡◌, refl}
use multi_paxos_work_in_prog.Application.{
  Watched, start, run, step, receive, init_app, Event, suspects, restores, receives, subscribes,
  other_receives, take_at,
}
use multi_paxos_work_in_prog.Common.GoMap.{lookup, insert, delete}
use multi_paxos_work_in_prog.Common.Int.{int_beq}
use multi_paxos_work_in_prog.Detector.Leader.{suspect, restore, subscribe, new_detector}
use multi_paxos_work_in_prog.Application.Following.{Follows, app-Follows}

abbrev three_nodes : List ℤ
three_nodes = pos 0 ∷ pos 1 ∷ pos 2 ∷ []

-- Another one subscribes. Node 2 is suspected and comes back, and the application receives only the
-- first change.
abbrev changes : List Event
changes = subscribes ∷ suspects (pos 2) ∷ receives ∷ restores (pos 2) ∷ other_receives 0 ∷ []

abbrev followed : Watched
followed = record {
  detector = record {
    node_ids = three_nodes;
    suspected = [];
    leader_id = pos 2;
    subscriber_chan = (pos 2 ∷ []) ∷ (pos 2 ∷ []) ∷ [];
  };
  app = record { leader = pos 1 };
}

-- Nobody publishes the first leader.
first_leader_unpublished :
    (run (start three_nodes) (receives ∷ []) >>= λ w. some w.app.leader) ≡ some (negsuc 0)
unfolding run start step receive init_app subscribe new_detector
first_leader_unpublished = refl

app-Follows_example : Follows (start three_nodes).detector.leader_id followed
unfolding run start step suspect int_beq subscribe new_detector lookup insert restore receive delete
    take_at
app-Follows_example = app-Follows three_nodes changes followed refl
