-- ===== src/Examples/Candidates.antt =====
-- A proposer (lab6/multipaxos/proposer.go) that gets the promises of three nodes.
use multi_paxos_work_in_prog.Common.{
  ℕ, ◌+◌, ◌*◌, ◌<◌, pos, int_eq, nat_eq, list_eq, Bool, true, false, List, [], ◌∷◌, Option, none,
  some, arith, ◌≡◌, refl, ◌^◌, inl, inr, All,
}
use multi_paxos_work_in_prog.Common.Int.{int_beq, add_int}
use multi_paxos_work_in_prog.Common.GoMap.{lookup, insert}
use multi_paxos_work_in_prog.Paxos.{
  Promise, SlotId, Round, Value, zero_value, Prepare, Accept, Learn, PromiseSlot,
}
use multi_paxos_work_in_prog.Paxos.Acceptor.{
  new_acceptor, Range, handle_prepare, handle_accept, store_vote, is_newer, slots_from, sort_slots,
  insert_slot, accept_in,
}
use multi_paxos_work_in_prog.Cluster.{IsSafe}
use multi_paxos_work_in_prog.Examples.Clusters.{
  late, accept_of, first_round, promised_again, answer_in, again-Reach,
}
use multi_paxos_work_in_prog.Paxos.Proposer.{
  Proposer, new_proposer, handle_promise, promise_of, take_promise, store_promise, check_quorum,
  start_phase_one, increase_crnd, after_promise, merge_slot, raise_max, create_accept_message,
  accepts_from, make_accept, chosen_value, update_promise_slots, Event, promise_in, trust, Output,
  step, run,
}
use multi_paxos_work_in_prog.Paxos.Proposer.Rounds.{prepares}
use multi_paxos_work_in_prog.Cluster.Proposing.{AnswerTo, phase_one-IsSafe}

abbrev promise_from : ℕ → Promise
promise_from i = (answer_in first_round late i).promise

-- Node 2 becomes the leader and gets the promise of node 1.
abbrev events : List Event
events = trust (pos 2) ∷ promise_in (promise_from 1) ∷ []

abbrev fresh : Proposer
fresh = new_proposer (pos 2) 3 (pos 0) (pos 1)

abbrev after_run : Option (Proposer × List Output) → Proposer × List Output
after_run none = (fresh, [])
after_run (some r) = r

abbrev candidate : Proposer × List Output
candidate = after_run (run fresh [] events)

abbrev completed : Option (Proposer × List Accept × Bool) → Proposer × List Accept × Bool
completed none = (fresh, [], false)
completed (some r) = r

abbrev elected : Proposer × List Accept × Bool
elected = completed (handle_promise candidate.0 (promise_from 2))

candidate_runs : run fresh [] events ≡ some (candidate.0, candidate.1)
unfolding run step new_proposer handle_promise promise_of take_promise store_promise check_quorum
    start_phase_one increase_crnd after_promise update_promise_slots merge_slot raise_max
    create_accept_message lookup insert add_int int_beq handle_prepare
    multi_paxos_work_in_prog.Paxos.Acceptor.step new_acceptor handle_accept store_vote is_newer
    slots_from sort_slots insert_slot
candidate_runs = refl

candidate_elected : handle_promise candidate.0 (promise_from 2) ≡ some (elected.0, elected.1, true)
unfolding run step new_proposer handle_promise promise_of take_promise store_promise check_quorum
    start_phase_one increase_crnd after_promise update_promise_slots merge_slot raise_max
    create_accept_message lookup insert add_int int_beq handle_prepare
    multi_paxos_work_in_prog.Paxos.Acceptor.step new_acceptor handle_accept store_vote is_newer
    slots_from sort_slots insert_slot
candidate_elected = refl

-- It makes one accept, with the value that node 1 reports.
makes_one : elected.1 ≡ accept_of late ∷ []
unfolding run step new_proposer handle_promise promise_of take_promise store_promise check_quorum
    start_phase_one increase_crnd after_promise update_promise_slots merge_slot raise_max
    create_accept_message lookup insert add_int int_beq handle_prepare accepts_from make_accept
    chosen_value multi_paxos_work_in_prog.Paxos.Acceptor.step new_acceptor handle_accept store_vote
    is_newer slots_from sort_slots insert_slot
makes_one = refl

answers_to :
    AnswerTo promised_again candidate.1 (promise_from 1)
    × AnswerTo promised_again candidate.1 (promise_from 2)
unfolding run step new_proposer handle_promise promise_of take_promise store_promise check_quorum
    start_phase_one increase_crnd after_promise update_promise_slots merge_slot raise_max
    create_accept_message lookup insert add_int int_beq handle_prepare
    multi_paxos_work_in_prog.Paxos.Acceptor.step new_acceptor handle_accept store_vote is_newer
    slots_from sort_slots insert_slot
answers_to = (
  record {
    answer = answer_in first_round late 1;
    among = inr (inl refl);
    promise = refl;
    asked = inr (inl refl);
  },
  record {
    answer = answer_in first_round late 2;
    among = inl refl;
    promise = refl;
    asked = inr (inl refl);
  },
)

few_rounds : 2 + prepares candidate.1 * 3 < 2 ^ 63
unfolding run step new_proposer handle_promise promise_of take_promise store_promise check_quorum
    start_phase_one increase_crnd after_promise update_promise_slots merge_slot raise_max
    create_accept_message lookup insert add_int int_beq handle_prepare
    multi_paxos_work_in_prog.Paxos.Acceptor.step new_acceptor handle_accept store_vote is_newer
    slots_from sort_slots insert_slot
few_rounds = omega arith

phase_one-IsSafe_example : All (IsSafe 3 promised_again) elected.1
phase_one-IsSafe_example =
    phase_one-IsSafe 2 3 (pos 0) (pos 1) events (promise_from 2) again-Reach
      (omega arith, omega arith) (omega arith) few_rounds candidate_runs candidate_elected
      (tt, (answers_to.0, tt)) answers_to.1
