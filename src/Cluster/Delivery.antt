-- ===== src/Cluster/Delivery.antt =====
-- What a message that a node gets changes in a cluster, and what it leaves.
use multi_paxos_work_in_prog.Common.{
  ℕ, int_eq, ◌==◌, nat_eq, nat_beq_iff, Bool, true, false, if◌then◌else◌, List, [], ◌∷◌, subst, inl,
  inr, arith, Bool-cases,
}
use multi_paxos_work_in_prog.Paxos.{SlotId, Round, Value, Accept}
use multi_paxos_work_in_prog.Paxos.Acceptor.{Acceptor, Event, Output, step, send}
use multi_paxos_work_in_prog.Paxos.Acceptor.Voting.{VotedFor}
use multi_paxos_work_in_prog.Cluster.{Cluster, Answer, Among, IssuedFor, IsSafe, delivered}
use multi_paxos_work_in_prog.Cluster.Votes.{step-VotedFor}

pub Among-IssuedFor :
    (acc : Accept) (l : List Accept) → Among acc l → IssuedFor acc.slot acc.rnd acc.val l
Among-IssuedFor acc [] h = absurd h
Among-IssuedFor acc (b ∷ l) (inl e) = inl (ground (arith, e))
Among-IssuedFor acc (b ∷ l) (inr h) = inr (Among-IssuedFor acc l h)

-- A safe accept stays safe while the network gains messages.
pub IsSafe-mono :
    (n : ℕ) (c d : Cluster) (acc : Accept)
    → ((ans : Answer) → Among ans c.answers → Among ans d.answers)
    → ((i : ℕ) (s : SlotId) (r : Round) (v : Value)
        → VotedFor s r v (c.sent i)
        → VotedFor s r v (d.sent i))
    → IsSafe n c acc
    → IsSafe n d acc
IsSafe-mono n c d acc more_answers more_votes h = record {
  quorum = h.quorum;
  answer = h.answer;
  majority = h.majority;
  promised =
      λ i lt q. let (a, b, e, f) = h.promised i lt q in (more_answers (h.answer i) a, b, e, f);
  choice = elim h.choice [
    | inl free ↦ inl free
    | inr b ↦ inr (record {
      voter = b.voter;
      round = b.round;
      voted = more_votes b.voter acc.slot b.round acc.val b.voted;
      earlier = b.earlier;
      highest = b.highest;
    })
  ];
}

-- One node's facts change by its own step only.
pub delivered-each :
    (P : ℕ → Acceptor → List Output → Type 0) (c : Cluster) (i : ℕ) (e : Event)
    → ((j : ℕ) → P j (c.acceptors j) (c.sent j))
    → P i (step (c.acceptors i) e).0 (send (step (c.acceptors i) e).1 (c.sent i))
    → (j : ℕ) → P j ((delivered c i e).acceptors j) ((delivered c i e).sent j)
delivered-each P c i e old new j = elim (Bool-cases (i == j)) [
  | inr other ↦ rw other (old j)
  | inl same ↦ rw same (
      subst (λ k. P k (step (c.acceptors i) e).0 (send (step (c.acceptors i) e).1 (c.sent i)))
        ((nat_beq_iff i j).0 same) new)
]

pub delivered-VotedFor :
    (c : Cluster) (i : ℕ) (e : Event) (j : ℕ) (s : SlotId) (r : Round) (v : Value)
    → VotedFor s r v (c.sent j)
    → VotedFor s r v ((delivered c i e).sent j)
delivered-VotedFor c i e j s r v =
    delivered-each (λ k a o. VotedFor s r v (c.sent k) → VotedFor s r v o) c i e (λ k w. w)
      (step-VotedFor (c.acceptors i) e (c.sent i) s r v) j

pub more-answers :
    (out : Bool) (x ans : Answer) (l : List Answer)
    → Among ans l
    → Among ans (if out then x ∷ l else l)
more-answers true x ans l m = inr m
more-answers false x ans l m = m
