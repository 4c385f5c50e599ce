-- ===== src/Cluster/Voting.antt =====
-- What the answer of an acceptor to a prepare says of its votes, before and after any further step.
use multi_paxos_work_in_prog.Common.{
  pos, ℕ, int_eq, nat_eq, ◌≤ℤ◌, ◌<ℤ◌, leb_ℤ, true, if◌then◌else◌, List, [], ◌∷◌, Option, none, some,
  ◌≡◌, refl, sym, ◌∙◌, subst, inl, inr, arith, le→leb_ℤ,
}
use multi_paxos_work_in_prog.Common.GoMap.{lookup, Listing}
use multi_paxos_work_in_prog.Paxos.{SlotId, Round, Value, Prepare, PromiseSlot, reported}
use multi_paxos_work_in_prog.Paxos.Acceptor.{
  Acceptor, Range, handle_prepare, Event, accept_in, prepare_in, Output, learn_out, promise_out,
  step, send,
}
use multi_paxos_work_in_prog.Paxos.Acceptor.Sorting.{by_id, Ascending}
use multi_paxos_work_in_prog.Paxos.Acceptor.Voting.{
  VotedFor, VotesUpTo, NoVote, Recorded, History, accept_cases, prepare_cases,
}
use multi_paxos_work_in_prog.Paxos.Acceptor.Reports.{
  handle_prepare-lookup, handle_prepare-Ascending, handle_prepare-sender,
}
use multi_paxos_work_in_prog.Cluster.{Answer, report}

-- The promise is the node's own, for the round of the prepare, with its reports in order.
-- A vote of the node for the slot, before the round of the prepare, is in the report or one of a
-- higher round is; and what is reported is such a vote.
pub record Answered (a : Acceptor) (sent : List Output) (ans : Answer) : Type 0 where
  pub own : ans.promise.from ≡ pos ans.node
  pub round : ans.promise.rnd ≡ ans.prepare.crnd
  pub ascending : Ascending (reported ans.promise.slots)
  pub held : ans.prepare.crnd ≤ℤ a.accepted_rounds
  pub complete :
      (s : SlotId) (r : Round) (v : Value)
      → ans.prepare.slot ≤ℤ s
      → r <ℤ ans.prepare.crnd
      → VotedFor s r v sent
      → (q : PromiseSlot) × (report s ans ≡ some q) × (r ≤ℤ q.vrnd)
  pub truthful :
      (s : SlotId) (q : PromiseSlot)
      → report s ans ≡ some q
      → VotedFor s q.vrnd q.vval sent × (q.vrnd <ℤ ans.prepare.crnd)

VotedFor-VotesUpTo :
    (s : SlotId) (r t : Round) (v : Value) (sent : List Output)
    → VotedFor s r v sent
    → VotesUpTo s t sent
    → r ≤ℤ t
VotedFor-VotesUpTo s r t v [] h u = absurd h
VotedFor-VotesUpTo s r t v (learn_out l ∷ o) (inl h) u = subst (λ x. x ≤ℤ t) h.1 (u.0 h.0)
VotedFor-VotesUpTo s r t v (learn_out l ∷ o) (inr h) u = VotedFor-VotesUpTo s r t v o h u.1
VotedFor-VotesUpTo s r t v (promise_out p ∷ o) h u = VotedFor-VotesUpTo s r t v o h u

VotedFor-NoVote :
    (s : SlotId) (r : Round) (v : Value) (sent : List Output)
    → VotedFor s r v sent
    → ¬ NoVote s sent
VotedFor-NoVote s r v [] h u = absurd h
VotedFor-NoVote s r v (learn_out l ∷ o) (inl h) u = u.0 h.0
VotedFor-NoVote s r v (learn_out l ∷ o) (inr h) u = VotedFor-NoVote s r v o h u.1
VotedFor-NoVote s r v (promise_out p ∷ o) h u = VotedFor-NoVote s r v o h u

-- What the map of an acceptor with a history holds covers every vote.
Recorded-complete :
    (s : SlotId) (r : Round) (v : Value) (o : Option PromiseSlot) (sent : List Output)
    → Recorded s o sent
    → VotedFor s r v sent
    → (q : PromiseSlot) × (o ≡ some q) × (r ≤ℤ q.vrnd)
Recorded-complete s r v none sent h w = absurd (VotedFor-NoVote s r v sent w h)
Recorded-complete s r v (some q) sent h w = (q, refl, VotedFor-VotesUpTo s r q.vrnd v sent w h.2)

Recorded-truthful :
    (s : SlotId) (o : Option PromiseSlot) (q : PromiseSlot) (sent : List Output)
    → Recorded s o sent
    → o ≡ some q
    → VotedFor s q.vrnd q.vval sent
Recorded-truthful s none q sent h e = cc
Recorded-truthful s (some p) q sent h e =
    let same : p ≡ q = cc e in subst (λ (x : PromiseSlot). VotedFor s x.vrnd x.vval sent) same h.1

-- A fresh promise is a true and complete answer.
handle_prepare-Answered :
    (i : ℕ) (range : Range) (a : Acceptor) (sent : List Output) (p : Prepare)
    → a.id ≡ pos i
    → History a sent
    → Listing a.slots (range a.slots)
    → (handle_prepare range a p).2 ≡ true
    → Answered
        (handle_prepare range a p).0
        sent
        (record { node = i; prepare = p; promise = (handle_prepare range a p).1 })
handle_prepare-Answered i range a sent p id h visits out = record {
  own = (handle_prepare-sender range a p out).0 ∙ id;
  round = (handle_prepare-sender range a p out).1;
  ascending = handle_prepare-Ascending range a sent p h visits out;
  held = elim (prepare_cases range a p) [
    | inl (newer, e, _) ↦ rw e (omega arith)
    | inr (_, _, silent) ↦ absurd (ground (arith, silent, out))
  ];
  complete = λ s r v up below w.
      let (q, e, le) = Recorded-complete s r v (lookup s a.slots) sent (h.recorded s) w in
      (q, found s ∙ rw (le→leb_ℤ p.slot s up) e, le);
  truthful = λ s q e. reported_vote s q (sym (found s) ∙ e);
}
  where
    found :
        (s : SlotId)
        → lookup s (by_id (reported (handle_prepare range a p).1.slots))
          ≡ (if leb_ℤ p.slot s then lookup s a.slots else none)
    found = handle_prepare-lookup range a sent p h visits out

    newer_round : a.accepted_rounds <ℤ p.crnd
    newer_round = elim (prepare_cases range a p) [
      | inl (newer, _, _) ↦ newer
      | inr (_, _, silent) ↦ absurd (ground (arith, silent, out))
    ]

    reported_vote :
        (s : SlotId) (q : PromiseSlot)
        → (if leb_ℤ p.slot s then lookup s a.slots else none) ≡ some q
        → VotedFor s q.vrnd q.vval sent × (q.vrnd <ℤ p.crnd)
    reported_vote s q e =
        let held : lookup s a.slots ≡ some q = ground (arith, e) in
        let w : VotedFor s q.vrnd q.vval sent =
          Recorded-truthful s (lookup s a.slots) q sent (h.recorded s) held in
        (
          w,
          omega (
            arith,
            newer_round,
            VotedFor-VotesUpTo s q.vrnd a.accepted_rounds q.vval sent w (h.bounded s),
          ),
        )

-- The step that sends the promise.
pub step-answer :
    (i : ℕ) (range : Range) (a : Acceptor) (sent : List Output) (p : Prepare)
    → a.id ≡ pos i
    → History a sent
    → Listing a.slots (range a.slots)
    → (handle_prepare range a p).2 ≡ true
    → Answered
        (step a (prepare_in range p)).0
        (send (step a (prepare_in range p)).1 sent)
        (record { node = i; prepare = p; promise = (handle_prepare range a p).1 })
unfolding step
step-answer i range a sent p id h visits out =
    let fresh = handle_prepare-Answered i range a sent p id h visits out in
    rw out (record {
      own = fresh.own;
      round = fresh.round;
      ascending = fresh.ascending;
      held = fresh.held;
      complete = fresh.complete;
      truthful = fresh.truthful;
    })

-- What a step of an acceptor keeps of an answer that it has given before.
pub step-Answered :
    (a : Acceptor) (e : Event) (sent : List Output) (ans : Answer)
    → Answered a sent ans
    → Answered (step a e).0 (send (step a e).1 sent) ans
unfolding step
step-Answered a (accept_in acc) sent ans h = elim (accept_cases a acc) [
  | inr (_, e) ↦ rw (e, step) h
  | inl (newer, e) ↦
      rw (e, step)
        (record {
          own = h.own;
          round = h.round;
          ascending = h.ascending;
          held = omega (arith, newer, h.held);
          complete = λ s r v up below w. elim w [
            | inl fresh ↦ absurd (ground (arith, newer, h.held, below, fresh))
            | inr old ↦ h.complete s r v up below old
          ];
          truthful = λ s q f. (inr (h.truthful s q f).0, (h.truthful s q f).1);
        })
]
step-Answered a (prepare_in range p) sent ans h = elim (prepare_cases range a p) [
  | inr (_, b, e) ↦ rw (e, b) h
  | inl (newer, b, e) ↦
      rw (e, b)
        (record {
          own = h.own;
          round = h.round;
          ascending = h.ascending;
          held = omega (arith, newer, h.held);
          complete = h.complete;
          truthful = h.truthful;
        })
]
