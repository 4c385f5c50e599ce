-- ===== src/Examples/Acceptors.antt =====
-- Runs of the acceptor of lab6/multipaxos/acceptor.go.
use multi_paxos_work_in_prog.Common.{
  ℤ, pos, int_eq, ltb_ℤ, leb_ℤ, ◌<ℤ◌, ◌≤ℤ◌, Bool, true, false, if◌then◌else◌, List, [], ◌∷◌, ◌++◌,
  Option, none, some, ◌≡◌, ◌⊎◌, refl, arith, int_beq_iff,
}
use multi_paxos_work_in_prog.Common.GoMap.{lookup, insert, Listing, Listing-refl}
use multi_paxos_work_in_prog.Paxos.{SlotId, noop_value, Prepare, reported}
use multi_paxos_work_in_prog.Paxos.Acceptor.{
  Acceptor, new_acceptor, Range, handle_prepare, handle_accept, store_vote, is_newer, step, Event,
  accept_in, prepare_in, run,
}
use multi_paxos_work_in_prog.Paxos.Acceptor.Sorting.{Ascending, by_id}
use multi_paxos_work_in_prog.Paxos.Acceptor.Voting.{
  Recorded, AllFrom, promise_binds, run-History, new-History,
}
use multi_paxos_work_in_prog.Paxos.Acceptor.Reports.{
  promise_reports_highest, prepare_order_irrelevant,
}

abbrev same_order : Range
same_order m = m

-- the order backwards, of two entries
abbrev swapped : Range
swapped [] = []
swapped (e ∷ []) = e ∷ []
swapped (e ∷ f ∷ m) = f ∷ e ∷ m

abbrev vote : SlotId → ℤ → Event
vote s r = accept_in (record { from = pos 1; slot = s; rnd = r; val = noop_value })

-- a prepare, votes in the slots 2 and 1, and a second vote in slot 2
abbrev votes : List Event
votes =
    prepare_in same_order (record { from = pos 1; slot = pos 1; crnd = pos 1 })
    ∷ vote (pos 2) (pos 1)
    ∷ vote (pos 1) (pos 1)
    ∷ vote (pos 2) (pos 4)
    ∷ []

abbrev next_prepare : Prepare
next_prepare = record { from = pos 2; slot = pos 2; crnd = pos 5 }

abbrev voter : Acceptor
voter = (run (new_acceptor (pos 0)) [] votes).0

voter_visits : Listing voter.slots (same_order voter.slots)
unfolding run
voter_visits =
    Listing-refl voter.slots
      (run-History (new_acceptor (pos 0)) [] votes (new-History (pos 0))).distinct

voter_visits_swapped : Listing voter.slots (swapped voter.slots)
unfolding run lookup step new_acceptor handle_prepare handle_accept store_vote is_newer insert
    multi_paxos_work_in_prog.Common.Int.int_beq
voter_visits_swapped = record { distinct = (refl, (refl, tt)); same = λ k. swap k }
  where
    swap : (k : ℤ) → lookup k (swapped voter.slots) ≡ lookup k voter.slots
    swap k = ground (arith, int_beq_iff (pos 1) k, int_beq_iff (pos 2) k)

next_prepare_answered : (handle_prepare same_order voter next_prepare).2 ≡ true
unfolding run handle_prepare step new_acceptor
next_prepare_answered = refl

promise_reports_highest_example :
    let l = reported (handle_prepare same_order voter next_prepare).1.slots in
    Ascending l
    × ((s : SlotId)
        → ((pos 2 ≤ℤ s) × Recorded s (lookup s (by_id l)) (run (new_acceptor (pos 0)) [] votes).1)
          ⊎ ((s <ℤ pos 2) × (lookup s (by_id l) ≡ none)))
promise_reports_highest_example =
    promise_reports_highest (pos 0) votes same_order next_prepare voter_visits next_prepare_answered

prepare_order_irrelevant_example :
    handle_prepare same_order voter next_prepare ≡ handle_prepare swapped voter next_prepare
prepare_order_irrelevant_example =
    prepare_order_irrelevant (pos 0) votes same_order swapped next_prepare voter_visits
      voter_visits_swapped

promise_binds_example :
    let b = (handle_prepare same_order voter next_prepare).0 in
    (pos 5 ≤ℤ (run b [] votes).0.accepted_rounds) × AllFrom (pos 5) (run b [] votes).1
promise_binds_example = promise_binds same_order voter next_prepare votes next_prepare_answered
