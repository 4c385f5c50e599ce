-- ===== src/Cluster/Proposing.antt =====
-- Proposers (lab6/multipaxos/proposer.go) that get the answers of a cluster's nodes to their prepares.
use multi_paxos_work_in_prog.Common.{
  ℕ, ◌+◌, ◌*◌, ◌<◌, ◌≤◌, ◌^◌, ℤ, pos, pos_part, int_eq, nat_eq, ◌≤ℤ◌, ◌<ℤ◌, true, List, [], Option,
  some, ◌≡◌, refl, sym, ◌∙◌, ap, subst, inl, inr, arith, All, All-map, length, count, get_elem?,
  Option-cases,
}
use multi_paxos_work_in_prog.Common.Int.{InRange}
use multi_paxos_work_in_prog.Common.GoMap.{lookup}
use multi_paxos_work_in_prog.Common.Quorums.{IsMajority}
use multi_paxos_work_in_prog.Paxos.{SlotId, Round, PromiseSlot, Promise, Accept, reported}
use multi_paxos_work_in_prog.Paxos.Acceptor.Voting.{VotedFor}
use multi_paxos_work_in_prog.Paxos.Proposer.{
  Proposer, new_proposer, chosen_value, handle_promise, Event, Output, prepare_out, run,
}
use multi_paxos_work_in_prog.Paxos.Proposer.Frames.{handle_promise-Handled, handle_promise-Keeps}
use multi_paxos_work_in_prog.Paxos.Proposer.Quorum.{is_promised, phase_one_majority}
use multi_paxos_work_in_prog.Paxos.Proposer.Rounds.{prepares, advance_lem, run-crnd}
use multi_paxos_work_in_prog.Paxos.Proposer.Reports.{ReportedAs}
use multi_paxos_work_in_prog.Paxos.Proposer.Evidence.{Covers, Past, Evidence}
use multi_paxos_work_in_prog.Paxos.Proposer.Sources.{HeardIn, phase_one-Evidence}
use multi_paxos_work_in_prog.Paxos.Proposer.Filling.{Fills, handle_promise-Fills}
use multi_paxos_work_in_prog.Paxos.Proposer.Asking.{AskedUpTo, new-AskedUpTo}
use multi_paxos_work_in_prog.Cluster.{Cluster, Answer, report, Among, Bound, IsSafe, Reach}
use multi_paxos_work_in_prog.Cluster.Answers.{
  AskedUpTo-Among, lookup-ReportedAs, ReportedAs-lookup, held, count_below-held, held-promise,
  choose,
}
use multi_paxos_work_in_prog.Cluster.Voting.{Answered}
use multi_paxos_work_in_prog.Cluster.Invariant.{Inv, Reach-Inv}

-- The promise is the answer of a node to one of the prepares.
pub record AnswerTo (c : Cluster) (sent : List Output) (r : Promise) : Type 0 where
  pub answer : Answer
  pub among : Among answer c.answers
  pub promise : answer.promise ≡ r
  pub asked : Among (prepare_out answer.prepare) sent

-- The answer of a node for the round of the proposer, whose reports the proposer has merged.
record Supports (c : Cluster) (q : Proposer) (j : ℕ) (ans : Answer) : Type 0 where
  among : Among ans c.answers
  node : ans.node ≡ j
  round : ans.prepare.crnd ≡ q.crnd
  slot : ans.prepare.slot ≤ℤ q.adu
  covered :
      (s : SlotId) (x : PromiseSlot) → report s ans ≡ some x → Covers (lookup s q.promise_slots) x

module _ (n : ℕ) (c : Cluster) (inv : Inv n c) (sent : List Output) where
  answer-Answered :
      {r : Promise} (h : AnswerTo c sent r)
      → Answered (c.acceptors h.answer.node) (c.sent h.answer.node) h.answer
  answer-Answered h = (inv.nodes h.answer.node).honest h.answer h.among refl

  answer-round : {r : Promise} (h : AnswerTo c sent r) → h.answer.prepare.crnd ≡ r.rnd
  answer-round h = sym (answer-Answered h).round ∙ ap (λ (x : Promise). x.rnd) h.promise

  answer-node : {r : Promise} (h : AnswerTo c sent r) → pos h.answer.node ≡ r.from
  answer-node h = sym (answer-Answered h).own ∙ ap (λ (x : Promise). x.from) h.promise

  -- A report of the promise is a vote of the node, before the round of the promise.
  answer-voted :
      {r : Promise} (h : AnswerTo c sent r) (s : SlotId) (x : PromiseSlot)
      → ReportedAs s x (reported r.slots)
      → VotedFor s x.vrnd x.vval (c.sent h.answer.node) × (x.vrnd <ℤ r.rnd)
  answer-voted h s x k =
      let true_answer = answer-Answered h in
      let mine = subst (λ (y : Promise). ReportedAs s x (reported y.slots)) (sym h.promise) k in
      let (v, lt) =
        true_answer.truthful s x
          (ReportedAs-lookup s x (reported h.answer.promise.slots) true_answer.ascending mine) in
      (v, subst (λ t. x.vrnd <ℤ t) (answer-round h) lt)

  answer-reported :
      {r : Promise} (h : AnswerTo c sent r) (s : SlotId) (x : PromiseSlot)
      → report s h.answer ≡ some x
      → ReportedAs s x (reported r.slots)
  answer-reported h s x k =
      subst (λ (y : Promise). ReportedAs s x (reported y.slots)) h.promise
        (lookup-ReportedAs s x (reported h.answer.promise.slots) k)

  module _ (past : Round → Type 0) (q : Proposer) (asked : AskedUpTo q.adu sent)
      (earlier : (r : Round) → past r → r ≤ℤ q.crnd)
      (e : Evidence (AnswerTo c sent) past q.promises q.promise_slots)
      (placed : (j : ℕ) (r : Promise)
        → get_elem? q.promises j ≡ some (some r)
        → (r.from ≡ pos j) × (r.rnd ≡ q.crnd)) where
    promise-Supports :
        (j : ℕ) (r : Promise)
        → get_elem? q.promises j ≡ some (some r)
        → (ans : Answer) × Supports c q j ans
    promise-Supports j r k =
        let (heard, cover) = e.merged j r k in
        let (from, rnd) = placed j r k in
        (
          heard.answer,
          record {
            among = heard.among;
            node = ground (arith, answer-node heard, from);
            round = answer-round heard ∙ rnd;
            slot = AskedUpTo-Among q.adu heard.answer.prepare sent asked heard.asked;
            covered = λ s x m. cover s x (answer-reported heard s x m);
          },
        )

    -- What a merged report says of the votes.
    Source-Bound :
        (acc : Accept) (x : PromiseSlot) (answer : ℕ → Answer)
        → lookup acc.slot q.promise_slots ≡ some x
        → acc.rnd ≡ q.crnd
        → acc.val ≡ x.vval
        → ((j : ℕ) → held q.promises j ≡ true → Supports c q j (answer j))
        → Bound n c acc (held q.promises) answer
    Source-Bound acc x answer k rnd val support =
        let src = e.sourced acc.slot x k in
        let (vote, lt) = answer-voted src.heard acc.slot x src.report in
        record {
          voter = src.heard.answer.node;
          round = x.vrnd;
          voted =
              subst (λ v. VotedFor acc.slot x.vrnd v (c.sent src.heard.answer.node)) (sym val) vote;
          earlier =
              subst (λ t. x.vrnd <ℤ t) (sym rnd)
                (omega (arith, lt, earlier src.promise.rnd src.round));
          highest = λ j lt_n h y m.
              let (z, found, le) = (support j h).covered acc.slot y m in
              let same : x ≡ z = cc (k, found) in
              subst (λ (w : PromiseSlot). y.vrnd ≤ℤ w.vrnd) (sym same) le;
        }

    -- An accept that fills a slot keeps the contract.
    Fills-IsSafe :
        Answer → IsMajority n (held q.promises) → (acc : Accept) → Fills q acc → IsSafe n c acc
    unfolding chosen_value
    Fills-IsSafe default big acc fills =
        let (answer, support) =
          choose (held q.promises) (Supports c q) default
            (λ j h. let (r, k) = held-promise q.promises j h in promise-Supports j r k) in
        record {
          quorum = held q.promises;
          answer = answer;
          majority = big;
          promised = λ j lt h.
              let s = support j h in
              (s.among, s.node, s.round ∙ sym fills.round, omega (arith, s.slot, fills.open_slot));
          choice = elim (Option-cases (lookup acc.slot q.promise_slots)) [
            | inl none_merged ↦ inl (λ j lt h. elim (Option-cases (report acc.slot (answer j))) [
              | inl e ↦ e
              | inr (x, e) ↦
                  let (z, found, le) = (support j h).covered acc.slot x e in
                  absurd (cc (none_merged, found))
            ])
            | inr (x, k) ↦
                inr (
                  Source-Bound acc x answer k fills.round (fills.value ∙ ap chosen_value k) support)
          ];
        }

Past-le :
    (i n : ℕ) (sent : List Output) (r t : Round)
    → i + prepares sent * n < 2 ^ 63
    → t ≡ pos (i + prepares sent * n)
    → Past i n sent r
    → r ≤ℤ t
Past-le i n sent r t small now (k, le, e) =
    let fewer : k * n ≤ prepares sent * n = grind (arith, le) in
    rw (e, now, advance_lem k n i (omega (arith, fewer, small))) (omega (arith, fewer))

-- A proposer of a cluster's nodes that gets nothing but answers to its own prepares, in any order
-- and any number of times, and among any other events: when a promise completes Phase One, every
-- accept that it makes keeps the contract that the cluster asks of proposers. This holds over any
-- number of rounds, while neither the round nor `adu` passes the largest `int`.
pub phase_one-IsSafe :
    (i n : ℕ) {c : Cluster} (adu leader : ℤ) (es : List Event) {p : Proposer} {sent : List Output}
    (prm : Promise) {q : Proposer} {accs : List Accept}
    → Reach n c
    → InRange adu
    → pos_part adu + length es < 2 ^ 63
    → i + prepares sent * n < 2 ^ 63
    → run (new_proposer (pos i) n adu leader) [] es ≡ some (p, sent)
    → handle_promise p prm ≡ some (q, accs, true)
    → All (HeardIn (AnswerTo c sent)) es
    → AnswerTo c sent prm
    → All (IsSafe n c) accs
phase_one-IsSafe i n {c} adu leader es {p} {sent} prm {q} {accs} reach range few small h k all
      heard =
    let keeps = handle_promise-Keeps p prm (handle_promise-Handled p prm) k in
    let (big, sized, placed) = phase_one_majority (pos i) n adu leader es prm h k in
    let asked =
      subst (λ a. AskedUpTo a sent) (sym keeps.adu)
        (new-AskedUpTo (pos i) n adu leader es range few h) in
    let now = keeps.crnd ∙ run-crnd i n adu leader es h small in
    let evidence = phase_one-Evidence (AnswerTo c sent) i n adu leader es prm all heard h k in
    All-map (Fills q) (IsSafe n c)
      (Fills-IsSafe n c (Reach-Inv reach) sent (Past i n sent) q asked
        (λ r. Past-le i n sent r q.crnd small now) evidence placed heard.answer
        (majority q.promises sized big))
      accs (handle_promise-Fills p prm k)
  where
    majority :
        (l : List (Option Promise))
        → length l ≡ n
        → n < 2 * count is_promised l
        → IsMajority n (held l)
    majority l e big = rw (sym e) (rw (count_below-held l) (rw e big))
