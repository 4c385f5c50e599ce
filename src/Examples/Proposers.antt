-- ===== src/Examples/Proposers.antt =====
-- Runs of the proposer of lab6/multipaxos/proposer.go.
use multi_paxos_work_in_prog.Common.{
  ℕ, ◌+◌, ◌*◌, ◌<◌, ◌^◌, ℤ, pos, int_eq, ltb_ℤ, leb_ℤ, ◌&&◌, Bool, true, false, if◌then◌else◌, List,
  [], ◌∷◌, Option, none, some, ◌≡◌, ◌≢◌, refl, arith, count, length, get_elem?,
}
use multi_paxos_work_in_prog.Common.Int.{add_int, int_beq}
use multi_paxos_work_in_prog.Common.GoMap.{lookup, insert}
use multi_paxos_work_in_prog.Paxos.{
  SlotId, Value, noop_value, zero_value, PromiseSlot, Promise, Accept,
}
use multi_paxos_work_in_prog.Paxos.Proposer.{
  Proposer, new_proposer, handle_promise, promise_of, take_promise, store_promise, check_quorum,
  start_phase_one, increase_crnd, after_promise, merge_slot, raise_max, create_accept_message,
  accepts_from, update_promise_slots, Event, promise_in, progress_tick, trust, Output, step, run,
}
use multi_paxos_work_in_prog.Paxos.Proposer.Quorum.{is_promised, phase_one_majority}
use multi_paxos_work_in_prog.Paxos.Proposer.Rounds.{prepares, rounds_disjoint}
use multi_paxos_work_in_prog.Paxos.Proposer.Accepts.{
  by_slot, AscendingSlots, LoopRange, create_accept_covers, create_accept_terminates,
  low_report_dropped,
}

abbrev deposit_of : ℤ → Value
deposit_of m = record zero_value { account_num = m }

-- what an acceptor reports: a vote in slot 1 and one in slot 3
abbrev reports : List PromiseSlot
reports =
    record { id = pos 1; vrnd = pos 0; vval = deposit_of (pos 4) }
    ∷ record { id = pos 3; vrnd = pos 1; vval = deposit_of (pos 5) }
    ∷ []

abbrev promise : ℤ → ℤ → Option (List PromiseSlot) → Promise
promise node r l = record { to = pos 2; from = node; rnd = r; slots = l }

-- Node 2 of three is trusted and gets one promise, in its second round.
abbrev start : List Event
start = trust (pos 2) ∷ promise_in (promise (pos 2) (pos 5) (some reports)) ∷ []

abbrev fresh : Proposer
fresh = new_proposer (pos 2) 3 (pos 0) (pos 2)

abbrev after_start : Option (Proposer × List Output) → Proposer × List Output
after_start none = (fresh, [])
after_start (some r) = r

abbrev candidate : Proposer × List Output
candidate = after_start (run fresh [] start)

candidate_started : run fresh [] start ≡ some (candidate.0, candidate.1)
unfolding run step new_proposer handle_promise promise_of take_promise store_promise check_quorum
    start_phase_one increase_crnd after_promise update_promise_slots merge_slot raise_max
    create_accept_message lookup insert add_int int_beq
candidate_started = refl

abbrev last_promise : Promise
last_promise = promise (pos 0) (pos 5) none

abbrev completed : Option (Proposer × List Accept × Bool) → Proposer × List Accept × Bool
completed none = (fresh, [], false)
completed (some r) = r

abbrev elected : Proposer × List Accept × Bool
elected = completed (handle_promise candidate.0 last_promise)

candidate_elected : handle_promise candidate.0 last_promise ≡ some (elected.0, elected.1, true)
unfolding run step new_proposer handle_promise promise_of take_promise store_promise check_quorum
    start_phase_one increase_crnd after_promise update_promise_slots merge_slot raise_max
    create_accept_message lookup insert add_int int_beq
candidate_elected = refl

phase_one_majority_example :
    (3 < 2 * count is_promised elected.0.promises)
    × (length elected.0.promises ≡ 3)
    × ((i : ℕ) (r : Promise)
        → get_elem? elected.0.promises i ≡ some (some r)
        → (r.from ≡ pos i) × (r.rnd ≡ elected.0.crnd))
phase_one_majority_example =
    phase_one_majority (pos 2) 3 (pos 0) (pos 2) start last_promise candidate_started
      candidate_elected

elected_range : LoopRange elected.0.min_slot elected.0.max_slot
unfolding run step new_proposer handle_promise promise_of take_promise store_promise check_quorum
    start_phase_one increase_crnd after_promise update_promise_slots merge_slot raise_max
    create_accept_message lookup insert add_int int_beq
elected_range = (omega arith, omega arith, omega arith)

create_accept_covers_example :
    AscendingSlots (create_accept_message elected.0)
    × ((t : SlotId)
        → lookup t (by_slot (create_accept_message elected.0)) ≡ (
            if leb_ℤ elected.0.min_slot t && leb_ℤ t elected.0.max_slot && ltb_ℤ elected.0.adu t
            then some (record {
              from = elected.0.id;
              slot = t;
              rnd = elected.0.crnd;
              val = elim (lookup t elected.0.promise_slots) [ none ↦ noop_value | some q ↦ q.vval ];
            })
            else none))
create_accept_covers_example = create_accept_covers elected.0 elected_range

create_accept_terminates_example :
    accepts_from 9 elected.0 elected.0.min_slot ≡ create_accept_message elected.0
unfolding run step new_proposer handle_promise promise_of take_promise store_promise check_quorum
    start_phase_one increase_crnd after_promise update_promise_slots merge_slot raise_max
    create_accept_message lookup insert add_int int_beq
create_accept_terminates_example = create_accept_terminates elected.0 9 elected_range (omega arith)

candidate_small : 2 + prepares candidate.1 * 3 < 2 ^ 63
unfolding run step new_proposer handle_promise promise_of take_promise store_promise check_quorum
    start_phase_one increase_crnd after_promise update_promise_slots merge_slot raise_max
    create_accept_message lookup insert add_int int_beq
candidate_small = omega arith

abbrev other : Proposer × List Output
other =
    after_start
      (run (new_proposer (pos 1) 3 (pos 0) (pos 1)) [] (trust (pos 1) ∷ progress_tick ∷ []))

other_started :
    run (new_proposer (pos 1) 3 (pos 0) (pos 1)) [] (trust (pos 1) ∷ progress_tick ∷ [])
    ≡ some (other.0, other.1)
unfolding run step new_proposer handle_promise promise_of take_promise store_promise check_quorum
    start_phase_one increase_crnd after_promise update_promise_slots merge_slot raise_max
    create_accept_message lookup insert add_int int_beq
other_started = refl

other_small : 1 + prepares other.1 * 3 < 2 ^ 63
unfolding run step new_proposer handle_promise promise_of take_promise store_promise check_quorum
    start_phase_one increase_crnd after_promise update_promise_slots merge_slot raise_max
    create_accept_message lookup insert add_int int_beq
other_small = omega arith

rounds_disjoint_example : candidate.0.crnd ≢ other.0.crnd
rounds_disjoint_example =
    rounds_disjoint 2 1 3 (pos 0) (pos 0) (pos 2) (pos 1) start (trust (pos 1) ∷ progress_tick ∷ [])
      (omega arith) (omega arith) (λ same. absurd (omega (arith, same))) candidate_started
      other_started candidate_small other_small

abbrev sending : Proposer × List Output
sending = after_start (step candidate.0 (promise_in last_promise))

candidate_sends : step candidate.0 (promise_in last_promise) ≡ some (sending.0, sending.1)
unfolding run step new_proposer handle_promise promise_of take_promise store_promise check_quorum
    start_phase_one increase_crnd after_promise update_promise_slots merge_slot raise_max
    create_accept_message lookup insert add_int int_beq
candidate_sends = refl

abbrev higher : PromiseSlot
higher = record { id = pos 3; vrnd = pos 1; vval = deposit_of (pos 5) }

abbrev lower : PromiseSlot
lower = record { id = pos 1; vrnd = pos 0; vval = deposit_of (pos 4) }

low_report_dropped_example :
    let q = update_promise_slots (update_promise_slots fresh (higher ∷ [])) (lower ∷ []) in
    (lookup (pos 1) q.promise_slots ≡ some lower)
    × (lookup (pos 1) (by_slot (create_accept_message q)) ≡ none)
unfolding new_proposer
low_report_dropped_example =
    low_report_dropped fresh higher lower refl (omega arith) (omega arith, omega arith, omega arith)
      (omega arith) (omega arith)

-- a leader in the round 5 that waits for the promise of node 0
abbrev idle : Proposer
idle = record fresh {
  crnd = pos 5;
  next_slot = pos 1;
  promises = none ∷ some (promise (pos 1) (pos 5) none) ∷ some (promise (pos 2) (pos 5) none) ∷ [];
  promise_count = 2;
  phase_one_done = true;
}
