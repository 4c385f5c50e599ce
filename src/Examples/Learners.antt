-- ===== src/Examples/Learners.antt =====
-- Runs of the learner of lab6/multipaxos/learner.go.
use multi_paxos_work_in_prog.Common.{
  ℕ, ◌*◌, ◌<◌, ◌≤◌, ℤ, pos, negsuc, int_eq, nat_eq, list_eq, Bool, true, false, List, [], ◌∷◌, some,
  arith, ◌≡◌, refl, length,
}
use multi_paxos_work_in_prog.Common.Int.{int_beq}
use multi_paxos_work_in_prog.Common.GoMap.{GoMap, lookup, insert, Listing-refl, lookup-head}
use multi_paxos_work_in_prog.Common.Text.{Text, is_rune}
use multi_paxos_work_in_prog.Paxos.{SlotId, Value, zero_value, Learn}
use multi_paxos_work_in_prog.Paxos.Learner.{
  Orders, Learner, new_learner, joined_key, handle_learn, put_learn, check_if_maj_round, run,
}
use multi_paxos_work_in_prog.Paxos.Learner.Search.{IsOrders}
use multi_paxos_work_in_prog.Paxos.Learner.Values.{AllRunes}
use multi_paxos_work_in_prog.Paxos.Learner.Decisions.{
  with_learn, Outcome, AllOrders, learner_decides,
}

abbrev pub in_place : Orders
in_place = record {
  of_learns = λ m. m;
  of_rounds = λ m. m;
  of_slots = λ r m. m;
  of_removal = λ m. m;
}

pub in_place-IsOrders : IsOrders in_place
in_place-IsOrders = record {
  learns = λ m d. Listing-refl m d;
  rounds = λ m d. Listing-refl m d;
  slots = λ r m d. Listing-refl m d;
  removal = λ m d. Listing-refl m d;
}

abbrev amount_of : ℤ → Value
amount_of m = record zero_value { account_num = m }

abbrev learn : ℤ → ℤ → ℤ → ℤ → Learn
learn node s r m = record { from = node; slot = s; rnd = r; val = amount_of m }

-- learns of two nodes for different rounds
abbrev heard : List (Orders × Learn)
heard =
    (in_place, learn (pos 0) (pos 1) (pos 2) (pos 5))
    ∷ (in_place, learn (pos 1) (pos 1) (pos 1) (pos 4))
    ∷ []

heard-AllOrders : AllOrders heard
heard-AllOrders = (in_place-IsOrders, (in_place-IsOrders, tt))

abbrev listener : Learner
listener = (run (new_learner (pos 0) 3) [] heard).0

abbrev deciding : Learn
deciding = learn (pos 2) (pos 1) (pos 2) (pos 5)

learner_decides_example :
    Outcome in_place listener deciding (handle_learn in_place listener deciding)
    × (3 < 2 * listener.quorum)
    × (2 * listener.quorum ≤ 5)
learner_decides_example =
    learner_decides (pos 0) 3 heard in_place deciding heard-AllOrders in_place-IsOrders

listener_runes : AllRunes (with_learn listener deciding).learns
unfolding run new_learner joined_key handle_learn put_learn lookup insert int_beq check_if_maj_round
    multi_paxos_work_in_prog.Common.Classes.list_beq is_rune
listener_runes = ((refl, refl), ((refl, refl), ((refl, refl), tt)))

abbrev result : Learner × Value × SlotId × Bool
result = handle_learn in_place listener deciding

listener_decides :
    handle_learn in_place listener deciding ≡ (result.0, amount_of (pos 5), pos 1, true)
unfolding run new_learner joined_key handle_learn put_learn lookup insert int_beq check_if_maj_round
    multi_paxos_work_in_prog.Common.Classes.list_beq
listener_decides = refl

abbrev stored : GoMap Text Learn
stored = (joined_key (pos 1) (pos 2000000), learn (pos 1) (pos 2000000) (pos 2) (pos 5)) ∷ []

kept :
    lookup (joined_key (pos 1) (pos 2000000)) stored
    ≡ some (learn (pos 1) (pos 2000000) (pos 2) (pos 5))
kept =
    lookup-head (joined_key (pos 1) (pos 2000000)) (learn (pos 1) (pos 2000000) (pos 2) (pos 5)) []
