-- ===== src/Examples/Deciding.antt =====
-- Learners (lab6/multipaxos/learner.go) that hear three nodes.
use multi_paxos_work_in_prog.Common.{
  ℕ, zero, suc, ◌+◌, ◌*◌, ◌%◌, ◌-ℤ◌, ◌<◌, ◌≤◌, ℤ, pos, negsuc, int_eq, nat_eq, list_eq, ◌==◌, ltb,
  ◌≤ℤ◌, ◌<ℤ◌, Bool, true, false, List, [], ◌∷◌, Option, none, some, arith, ◌≡◌, refl, sym, ◌∙◌, inl,
  inr, if◌then◌else◌, All,
}
use multi_paxos_work_in_prog.Common.Int.{int_beq}
use multi_paxos_work_in_prog.Common.GoMap.{lookup, insert}
use multi_paxos_work_in_prog.Common.Text.{is_rune}
use multi_paxos_work_in_prog.Paxos.{SlotId, Round, Value, Learn}
use multi_paxos_work_in_prog.Paxos.Acceptor.{new_acceptor, handle_prepare, handle_accept, step}
use multi_paxos_work_in_prog.Paxos.Learner.{
  Orders, Learner, new_learner, joined_key, handle_learn, put_learn, check_if_maj_round, run,
}
use multi_paxos_work_in_prog.Examples.Learners.{in_place, in_place-IsOrders}
use multi_paxos_work_in_prog.Cluster.Agreement.{Chosen}
use multi_paxos_work_in_prog.Cluster.Learning.{FromCluster, decided-Chosen, learners_agree}
use multi_paxos_work_in_prog.Examples.Clusters.{early, late, payment, second_round, second-Reach}

abbrev learn_of : ℤ → Round → Learn
learn_of node r = record { from = node; slot = pos 1; rnd = r; val = payment }

abbrev sent_by : ℤ → Round → Orders × Learn
sent_by node r = (in_place, learn_of node r)

-- what a learner hears in the early round, and what another one hears in the late one
heard_first :
    FromCluster 3 second_round (learn_of (pos 0) early)
    × FromCluster 3 second_round (learn_of (pos 1) early)
unfolding new_acceptor handle_prepare step handle_accept is_rune
heard_first =
    (((0, omega arith, inl refl), refl, refl), ((1, omega arith, inr (inr (inl refl))), refl, refl))

heard_second :
    FromCluster 3 second_round (learn_of (pos 1) late)
    × FromCluster 3 second_round (learn_of (pos 2) late)
unfolding new_acceptor handle_prepare step handle_accept is_rune
heard_second = (((1, omega arith, inl refl), refl, refl), ((2, omega arith, inl refl), refl, refl))

abbrev first_result : Learner × Value × SlotId × Bool
first_result =
    handle_learn in_place (run (new_learner (pos 0) 3) [] (sent_by (pos 0) early ∷ [])).0
      (learn_of (pos 1) early)

abbrev second_result : Learner × Value × SlotId × Bool
second_result =
    handle_learn in_place (run (new_learner (pos 2) 3) [] (sent_by (pos 2) late ∷ [])).0
      (learn_of (pos 1) late)

first_decides : first_result ≡ (first_result.0, payment, pos 1, true)
unfolding run new_learner joined_key handle_learn put_learn lookup insert int_beq check_if_maj_round
    multi_paxos_work_in_prog.Common.Classes.list_beq
first_decides = refl

second_decides : second_result ≡ (second_result.0, payment, pos 1, true)
unfolding run new_learner joined_key handle_learn put_learn lookup insert int_beq check_if_maj_round
    multi_paxos_work_in_prog.Common.Classes.list_beq
second_decides = refl

decided-Chosen_example : (r : Round) × Chosen 3 second_round (pos 1) r payment
decided-Chosen_example =
    decided-Chosen 3 (pos 2) (sent_by (pos 2) late ∷ []) in_place (learn_of (pos 1) late)
      second-Reach (in_place-IsOrders, tt) in_place-IsOrders (heard_second.1, tt) heard_second.0
      second_decides

learners_agree_example : payment ≡ payment
learners_agree_example =
    learners_agree 3 (pos 0) (pos 2) (sent_by (pos 0) early ∷ []) (sent_by (pos 2) late ∷ [])
      in_place in_place (learn_of (pos 1) early) (learn_of (pos 1) late) second-Reach
      (in_place-IsOrders, tt) (in_place-IsOrders, tt) in_place-IsOrders in_place-IsOrders
      (heard_first.0, tt) (heard_second.1, tt) heard_first.1 heard_second.0 first_decides
      second_decides
