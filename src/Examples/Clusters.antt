-- ===== src/Examples/Clusters.antt =====
-- Three nodes with the acceptors of lab6/multipaxos/acceptor.go, and two proposers after each other.
use multi_paxos_work_in_prog.Common.{
  ℕ, zero, suc, ◌%◌, ◌<◌, ℤ, pos, negsuc, int_eq, nat_eq, list_eq, ltb, ◌≤ℤ◌, Bool, true, [], ◌∷◌,
  none, some, arith, ◌≡◌, refl, sym, inl, inr,
}
use multi_paxos_work_in_prog.Common.Int.{int_beq}
use multi_paxos_work_in_prog.Common.GoMap.{GoMap, lookup, insert, Listing-refl}
use multi_paxos_work_in_prog.Paxos.{Round, Value, zero_value, Prepare, Accept, PromiseSlot}
use multi_paxos_work_in_prog.Paxos.Acceptor.{
  new_acceptor, Range, handle_prepare, handle_accept, store_vote, is_newer, slots_from, sort_slots,
  insert_slot, accept_in, step,
}
use multi_paxos_work_in_prog.Paxos.Acceptor.Voting.{VotedFor}
use multi_paxos_work_in_prog.Cluster.{
  Cluster, Answer, report, Among, IssuedFor, IsSafe, delivered, answered, issue, accept, prepare,
  start, Reach, here, next,
}
use multi_paxos_work_in_prog.Cluster.Agreement.{Chosen, one_value}

-- the rounds of the proposers 1 and 2 after a first prepare of each
abbrev pub early : Round
early = pos 4

abbrev pub late : Round
late = pos 5

abbrev pub payment : Value
payment = record zero_value { account_num = pos 5 }

-- the proposer of a round of three nodes
abbrev proposer_of : Round → ℤ
proposer_of (pos r) = pos (r % 3)
proposer_of (negsuc r) = negsuc 0

abbrev pub accept_of : Round → Accept
accept_of r = record { from = proposer_of r; slot = pos 1; rnd = r; val = payment }

abbrev pub prepare_of : Round → Prepare
prepare_of r = record { from = proposer_of r; slot = pos 0; crnd = r }

abbrev pub same_order : Range
same_order m = m

abbrev asked : Cluster → ℕ → Round → Cluster
asked c i r = answered c i same_order (prepare_of r)

abbrev told : Cluster → ℕ → Round → Cluster
told c i r = delivered c i (accept_in (accept_of r))

abbrev sent_out : Cluster → Round → Cluster
sent_out c r = record c { issued = accept_of r ∷ c.issued }

-- the nodes 0 and 1 promise the early round and vote in it
abbrev promised : Cluster
promised = asked (asked start 0 early) 1 early

abbrev pub first_round : Cluster
first_round = told (told (sent_out promised early) 0 early) 1 early

-- then the nodes 1 and 2 promise the late round
abbrev pub promised_again : Cluster
promised_again = asked (asked first_round 1 late) 2 late

abbrev pub second_round : Cluster
second_round = told (told (sent_out promised_again late) 1 late) 2 late

abbrev first_quorum : ℕ → Bool
first_quorum i = ltb i 2

abbrev second_quorum : ℕ → Bool
second_quorum i = ltb 0 i

abbrev pub answer_in : Cluster → Round → ℕ → Answer
answer_in c r i = record {
  node = i;
  prepare = prepare_of r;
  promise = (handle_prepare same_order (c.acceptors i) (prepare_of r)).1;
}

promised_by :
    (i : ℕ)
    → first_quorum i ≡ true
    → Among (answer_in start early i) promised.answers
      × (report (pos 1) (answer_in start early i) ≡ none)
unfolding handle_prepare new_acceptor slots_from sort_slots lookup
promised_by zero h = (inr (inl refl), refl)
promised_by (suc zero) h = (inl refl, refl)
promised_by (suc (suc i)) h = absurd (ground (arith, h))

first-IsSafe : IsSafe 3 promised (accept_of early)
first-IsSafe = record {
  quorum = first_quorum;
  answer = answer_in start early;
  majority = omega arith;
  promised = λ i lt q. ((promised_by i q).0, refl, refl, omega arith);
  choice = inl (λ i lt q. (promised_by i q).1);
}

abbrev vote_reported : PromiseSlot
vote_reported = record { id = pos 1; vrnd = early; vval = payment }

same_report : (q : PromiseSlot) → some vote_reported ≡ some q → q.vrnd ≤ℤ early
same_report q e = let same : vote_reported ≡ q = cc e in rw (sym same) (omega arith)

no_report : (q : PromiseSlot) → none ≡ some q → q.vrnd ≤ℤ early
no_report q e = cc

promised_again_by :
    (i : ℕ)
    → i < 3
    → second_quorum i ≡ true
    → Among (answer_in first_round late i) promised_again.answers
      × ((q : PromiseSlot)
          → report (pos 1) (answer_in first_round late i) ≡ some q
          → q.vrnd ≤ℤ early)
unfolding handle_prepare new_acceptor slots_from sort_slots lookup step handle_accept store_vote
    insert insert_slot is_newer int_beq
promised_again_by zero lt h = absurd (ground (arith, h))
promised_again_by (suc zero) lt h = (inr (inl refl), same_report)
promised_again_by (suc (suc zero)) lt h = (inl refl, no_report)
promised_again_by (suc (suc (suc i))) lt h = absurd (omega (arith, lt))

second-IsSafe : IsSafe 3 promised_again (accept_of late)
unfolding step handle_accept handle_prepare new_acceptor
second-IsSafe = record {
  quorum = second_quorum;
  answer = answer_in first_round late;
  majority = omega arith;
  promised = λ i lt q. ((promised_again_by i lt q).0, refl, refl, omega arith);
  choice = inr (record {
    voter = 0;
    round = early;
    voted = inl (refl, refl, refl);
    earlier = omega arith;
    highest = λ i lt q. (promised_again_by i lt q).1;
  });
}

first-Reach : Reach 3 first_round
unfolding new_acceptor handle_prepare step
first-Reach =
    next
      (next
        (next
          (next (next here (prepare 0 same_order (prepare_of early) (Listing-refl [] tt)))
            (prepare 1 same_order (prepare_of early) (Listing-refl [] tt)))
          (issue (accept_of early) first-IsSafe (λ v h. absurd h)))
        (accept 0 (accept_of early) (inl refl)))
      (accept 1 (accept_of early) (inl refl))

alone_in_round : (v : Value) → IssuedFor (pos 1) late v promised_again.issued → v ≡ payment
alone_in_round v (inl h) = absurd (ground (arith, h))
alone_in_round v (inr h) = absurd h

pub again-Reach : Reach 3 promised_again
unfolding new_acceptor handle_prepare step handle_accept store_vote insert lookup is_newer
again-Reach =
    next
      (next first-Reach
        (prepare 1 same_order (prepare_of late) (Listing-refl first_slots (refl, tt))))
      (prepare 2 same_order (prepare_of late) (Listing-refl [] tt))
  where
    first_slots : GoMap ℤ PromiseSlot
    first_slots = (pos 1, vote_reported) ∷ []

pub second-Reach : Reach 3 second_round
second-Reach =
    next
      (next (next again-Reach (issue (accept_of late) second-IsSafe alone_in_round))
        (accept 1 (accept_of late) (inl refl)))
      (accept 2 (accept_of late) (inl refl))

first-Chosen : Chosen 3 second_round (pos 1) early payment
unfolding new_acceptor handle_prepare step handle_accept
first-Chosen = record { quorum = first_quorum; majority = omega arith; voted = λ i lt q. voted i q }
  where
    voted : (i : ℕ) → first_quorum i ≡ true → VotedFor (pos 1) early payment (second_round.sent i)
    voted zero q = inl (refl, refl, refl)
    voted (suc zero) q = inr (inl (refl, refl, refl))
    voted (suc (suc i)) q = absurd (ground (arith, q))

second-Chosen : Chosen 3 second_round (pos 1) late payment
unfolding new_acceptor handle_prepare step handle_accept
second-Chosen = record { quorum = second_quorum; majority = omega arith; voted = voted }
  where
    voted :
        (i : ℕ)
        → i < 3
        → second_quorum i ≡ true
        → VotedFor (pos 1) late payment (second_round.sent i)
    voted zero lt q = absurd (ground (arith, q))
    voted (suc zero) lt q = inl (refl, refl, refl)
    voted (suc (suc zero)) lt q = inl (refl, refl, refl)
    voted (suc (suc (suc i))) lt q = absurd (omega (arith, lt))

one_value_example : payment ≡ payment
one_value_example =
    one_value 3 (pos 1) early late payment payment second-Reach first-Chosen second-Chosen
