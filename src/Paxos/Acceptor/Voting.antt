-- ===== src/Paxos/Acceptor/Voting.antt =====
-- The votes of an acceptor (lab6/multipaxos/acceptor.go) over any run of its loop.
use multi_paxos_work_in_prog.Common.{
  ℤ, Bool, true, false, ◌<ℤ◌, ◌≤ℤ◌, int_beq_iff, int_eq, ◌==◌, if◌then◌else◌, List, [], ◌∷◌, Option,
  none, some, All, arith, ◌≡◌, ◌≢◌, ◌⊎◌, inl, inr,
}
use multi_paxos_work_in_prog.Common.GoMap.{GoMap, lookup, Distinct, lookup-insert, insert-Distinct}
use multi_paxos_work_in_prog.Paxos.{
  SlotId, Round, Value, PromiseSlot, Prepare, Promise, Accept, Learn, zero_learn,
}
use multi_paxos_work_in_prog.Paxos.Acceptor.{
  Acceptor, new_acceptor, Range, handle_prepare, handle_accept, is_newer, store_vote, Event,
  accept_in, prepare_in, Output, learn_out, promise_out, step, send, run,
}

-- the round of an output
abbrev pub out_rnd : Output → Round
out_rnd (learn_out l) = l.rnd
out_rnd (promise_out p) = p.rnd

-- Everything sent has a round from `r` on.
abbrev pub AllFrom : Round → List Output → Type 0
AllFrom r = All (λ o. r ≤ℤ out_rnd o)

step-AllFrom :
    (r : Round) (a : Acceptor) (e : Event) (sent : List Output)
    → r ≤ℤ a.accepted_rounds
    → AllFrom r sent
    → (r ≤ℤ (step a e).0.accepted_rounds) × AllFrom r (send (step a e).1 sent)
unfolding step
step-AllFrom r a (accept_in acc) sent h s = ground arith
step-AllFrom r a (prepare_in range p) sent h s = ground arith

run-AllFrom :
    (r : Round) (a : Acceptor) (sent : List Output) (es : List Event)
    → r ≤ℤ a.accepted_rounds
    → AllFrom r sent
    → (r ≤ℤ (run a sent es).0.accepted_rounds) × AllFrom r (run a sent es).1
unfolding run
run-AllFrom r a sent [] h s = (h, s)
run-AllFrom r a sent (e ∷ es) h s =
    let (h', s') = step-AllFrom r a e sent h s in
    run-AllFrom r (step a e).0 (send (step a e).1 sent) es h' s'

-- After a promise for a round the acceptor never again sends a learn or a promise of a lower
-- round, whatever messages arrive, and its own round never falls below the promised one.
pub promise_binds :
    (range : Range) (a : Acceptor) (p : Prepare) (es : List Event)
    → let (b, prm, output) = handle_prepare range a p in
      output ≡ true → (p.crnd ≤ℤ (run b [] es).0.accepted_rounds) × AllFrom p.crnd (run b [] es).1
unfolding handle_prepare
promise_binds range a p es out =
    run-AllFrom p.crnd (handle_prepare range a p).0 [] es (ground arith) tt

-- A learn for this slot, round and value has been sent.
abbrev pub VotedFor : SlotId → Round → Value → List Output → Type 0
VotedFor s r v [] = ⊥
VotedFor s r v (learn_out l ∷ o) = ((l.slot ≡ s) × (l.rnd ≡ r) × (l.val ≡ v)) ⊎ VotedFor s r v o
VotedFor s r v (promise_out p ∷ o) = VotedFor s r v o

-- Every learn sent for this slot has a round up to `r`.
abbrev pub VotesUpTo : SlotId → Round → List Output → Type 0
VotesUpTo s r [] = Unit {0}
VotesUpTo s r (learn_out l ∷ o) = (l.slot ≡ s → l.rnd ≤ℤ r) × VotesUpTo s r o
VotesUpTo s r (promise_out p ∷ o) = VotesUpTo s r o

-- No learn has been sent for this slot.
abbrev pub NoVote : SlotId → List Output → Type 0
NoVote s [] = Unit {0}
NoVote s (learn_out l ∷ o) = (l.slot ≢ s) × NoVote s o
NoVote s (promise_out p ∷ o) = NoVote s o

-- What the map holds for a slot is the vote of the highest round in the history.
abbrev pub Recorded : SlotId → Option PromiseSlot → List Output → Type 0
Recorded s none sent = NoVote s sent
Recorded s (some p) sent = (p.id ≡ s) × VotedFor s p.vrnd p.vval sent × VotesUpTo s p.vrnd sent

pub record History (a : Acceptor) (sent : List Output) : Type 0 where
  pub distinct : Distinct a.slots
  pub recorded : (s : SlotId) → Recorded s (lookup s a.slots) sent
  pub bounded : (s : SlotId) → VotesUpTo s a.accepted_rounds sent

VotesUpTo-mono :
    (s : SlotId) (r t : Round) (sent : List Output)
    → r ≤ℤ t
    → VotesUpTo s r sent
    → VotesUpTo s t sent
VotesUpTo-mono s r t [] h v = tt
VotesUpTo-mono s r t (learn_out l ∷ o) h v =
    (λ e. omega (arith, v.0 e), VotesUpTo-mono s r t o h v.1)
VotesUpTo-mono s r t (promise_out p ∷ o) h v = VotesUpTo-mono s r t o h v

NoVote-VotesUpTo :
    (s : SlotId) (r : Round) (sent : List Output) → NoVote s sent → VotesUpTo s r sent
NoVote-VotesUpTo s r [] n = tt
NoVote-VotesUpTo s r (learn_out l ∷ o) n = (λ e. absurd (n.0 e), NoVote-VotesUpTo s r o n.1)
NoVote-VotesUpTo s r (promise_out p ∷ o) n = NoVote-VotesUpTo s r o n

store_vote-Distinct :
    (acc : Accept) (m : GoMap SlotId PromiseSlot) → Distinct m → Distinct (store_vote acc m)
unfolding store_vote
store_vote-Distinct acc m d =
    ground (
      arith,
      insert-Distinct acc.slot (record { id = acc.slot; vrnd = acc.rnd; vval = acc.val }) m d,
    )

lookup-store_vote :
    (acc : Accept) (m : GoMap SlotId PromiseSlot) (s : SlotId)
    → lookup s (store_vote acc m) ≡ (
        if (acc.slot == s)
        then (if is_newer (lookup s m) acc.rnd
            then some (record { id = acc.slot; vrnd = acc.rnd; vval = acc.val })
            else lookup s m)
        else lookup s m)
unfolding store_vote
lookup-store_vote acc m s = ground (
  arith,
  int_beq_iff acc.slot s,
  lookup-insert acc.slot s (record { id = acc.slot; vrnd = acc.rnd; vval = acc.val }) m,
)

abbrev pub learn_of : ℤ → Accept → Learn
learn_of id acc = record { from = id; slot = acc.slot; rnd = acc.rnd; val = acc.val }

vote-Recorded :
    (id : ℤ) (acc : Accept) (s : SlotId) (o : Option PromiseSlot) (sent : List Output)
    → Recorded s o sent
    → VotesUpTo s acc.rnd sent
    → Recorded s
        (if (acc.slot == s)
          then (if is_newer o acc.rnd
              then some (record { id = acc.slot; vrnd = acc.rnd; vval = acc.val })
              else o)
          else o)
        (learn_out (learn_of id acc) ∷ sent)
unfolding is_newer
vote-Recorded id acc s none sent r u = ground (arith, int_beq_iff acc.slot s)
vote-Recorded id acc s (some p) sent r u = ground (arith, int_beq_iff acc.slot s)

-- the two outcomes of `handleAccept`
abbrev pub voted : Acceptor → Accept → Acceptor
voted a acc = record a {
  accepted_rounds = acc.rnd;
  prev_voted_val = acc.val;
  prev_voted_round = acc.rnd;
  slot_id = acc.slot;
  prev_slot_id = acc.slot;
  slots = store_vote acc a.slots;
}

pub accept_cases :
    (a : Acceptor) (acc : Accept)
    → ((a.accepted_rounds ≤ℤ acc.rnd)
        × (handle_accept a acc ≡ (voted a acc, learn_of a.id acc, true)))
      ⊎ ((acc.rnd <ℤ a.accepted_rounds) × (handle_accept a acc ≡ (a, zero_learn, false)))
unfolding handle_accept
accept_cases a acc = ground arith

pub prepare_cases :
    (range : Range) (a : Acceptor) (p : Prepare)
    → ((a.accepted_rounds <ℤ p.crnd)
        × ((handle_prepare range a p).0 ≡ record a { accepted_rounds = p.crnd; slot_id = p.slot })
        × ((handle_prepare range a p).2 ≡ true))
      ⊎ ((p.crnd ≤ℤ a.accepted_rounds)
          × ((handle_prepare range a p).0 ≡ a)
          × ((handle_prepare range a p).2 ≡ false))
unfolding handle_prepare
prepare_cases range a p = ground arith

voted-History :
    (a : Acceptor) (acc : Accept) (sent : List Output)
    → History a sent
    → a.accepted_rounds ≤ℤ acc.rnd
    → History (voted a acc) (learn_out (learn_of a.id acc) ∷ sent)
voted-History a acc sent h newer = record {
  distinct = store_vote-Distinct acc a.slots h.distinct;
  recorded = λ s. rw (lookup-store_vote acc a.slots s) (
      vote-Recorded a.id acc s (lookup s a.slots) sent (h.recorded s)
        (VotesUpTo-mono s a.accepted_rounds acc.rnd sent newer (h.bounded s)));
  bounded =
      λ s. (λ e. omega arith, VotesUpTo-mono s a.accepted_rounds acc.rnd sent newer (h.bounded s));
}

promised-History :
    (a : Acceptor) (p : Prepare) (sent : List Output)
    → History a sent
    → a.accepted_rounds ≤ℤ p.crnd
    → History (record a { accepted_rounds = p.crnd; slot_id = p.slot }) sent
promised-History a p sent h newer = record {
  distinct = h.distinct;
  recorded = h.recorded;
  bounded = λ s. VotesUpTo-mono s a.accepted_rounds p.crnd sent newer (h.bounded s);
}

sent_promise-History :
    (a : Acceptor) (b : Bool) (p : Promise) (sent : List Output)
    → History a sent
    → History a (send (if b then some (promise_out p) else none) sent)
sent_promise-History a true p sent h = record {
  distinct = h.distinct;
  recorded = λ s. promise_Recorded s (lookup s a.slots) (h.recorded s);
  bounded = h.bounded;
}
  where
    promise_Recorded :
        (s : SlotId) (o : Option PromiseSlot)
        → Recorded s o sent
        → Recorded s o (promise_out p ∷ sent)
    promise_Recorded s none r = r
    promise_Recorded s (some q) r = r
sent_promise-History a false p sent h = h

pub step-History :
    (a : Acceptor) (e : Event) (sent : List Output)
    → History a sent
    → History (step a e).0 (send (step a e).1 sent)
unfolding step
step-History a (prepare_in range p) sent h =
    sent_promise-History (handle_prepare range a p).0 (handle_prepare range a p).2 _ sent
      (elim (prepare_cases range a p) [
        | inl (newer, e, _) ↦ rw e (promised-History a p sent h (omega arith))
        | inr (_, e, _) ↦ rw e h
      ])
step-History a (accept_in acc) sent h = elim (accept_cases a acc) [
  | inl (newer, e) ↦ rw (e, step) (voted-History a acc sent h newer)
  | inr (_, e) ↦ rw (e, step) h
]

-- On any run of a new acceptor the map holds for each slot the vote of the highest round that the
-- acceptor has sent a learn for, and no entry for a slot that it never voted in.
pub run-History :
    (a : Acceptor) (sent : List Output) (es : List Event)
    → History a sent
    → History (run a sent es).0 (run a sent es).1
unfolding run
run-History a sent [] h = h
run-History a sent (e ∷ es) h = run-History (step a e).0 _ es (step-History a e sent h)

pub new-History : (id : ℤ) → History (new_acceptor id) []
unfolding new_acceptor lookup
new-History id = record { distinct = tt; recorded = λ s. tt; bounded = λ s. tt }
