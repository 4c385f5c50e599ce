-- ===== src/Cluster/Invariant.antt =====
-- What holds in every state of a cluster that can come about.
use multi_paxos_work_in_prog.Common.{
  ℕ, pos, int_eq, nat_eq, nat_beq_iff, Bool, true, false, if◌then◌else◌, List, ◌∷◌, ◌≡◌, refl, sym,
  ◌∙◌, ap, subst, inl, inr, arith,
}
use multi_paxos_work_in_prog.Common.GoMap.{Listing}
use multi_paxos_work_in_prog.Paxos.{SlotId, Round, Value, Prepare, Accept}
use multi_paxos_work_in_prog.Paxos.Acceptor.{
  Acceptor, new_acceptor, Range, handle_prepare, Event, accept_in, prepare_in, Output, step, send,
}
use multi_paxos_work_in_prog.Paxos.Acceptor.Voting.{VotedFor, History, new-History, step-History}
use multi_paxos_work_in_prog.Cluster.{
  Cluster, Answer, Among, IssuedFor, IsSafe, delivered, answered, Step, issue, accept, prepare,
  start, Reach, here, next,
}
use multi_paxos_work_in_prog.Cluster.Voting.{Answered, step-answer, step-Answered}
use multi_paxos_work_in_prog.Cluster.Votes.{step-voted, Signed, step-Signed}
use multi_paxos_work_in_prog.Cluster.Delivery.{
  Among-IssuedFor, IsSafe-mono, delivered-each, delivered-VotedFor, more-answers,
}

-- What holds of one node.
pub record NodeInv (i : ℕ) (a : Acceptor) (sent : List Output) (answers : List Answer)
    (issued : List Accept) : Type 0 where
  pub own_id : a.id ≡ pos i
  pub signed : Signed (pos i) sent
  pub history : History a sent
  pub voted : (s : SlotId) (r : Round) (v : Value) → VotedFor s r v sent → IssuedFor s r v issued
  pub honest : (ans : Answer) → Among ans answers → ans.node ≡ i → Answered a sent ans

pub record Inv (n : ℕ) (c : Cluster) : Type 0 where
  pub nodes : (i : ℕ) → NodeInv i (c.acceptors i) (c.sent i) c.answers c.issued
  pub safe : (acc : Accept) → Among acc c.issued → IsSafe n c acc
  pub alone :
      (s : SlotId) (r : Round) (v w : Value)
      → IssuedFor s r v c.issued
      → IssuedFor s r w c.issued
      → v ≡ w

-- A step of a node keeps what holds of it, if the accepts that it gets were sent.
step-NodeInv :
    (i : ℕ) (a : Acceptor) (e : Event) (sent : List Output) (answers : List Answer)
    (issued : List Accept)
    → ((acc : Accept) → e ≡ accept_in acc → Among acc issued)
    → NodeInv i a sent answers issued
    → NodeInv i (step a e).0 (send (step a e).1 sent) answers issued
step-NodeInv i a e sent answers issued from_issued h = record {
  own_id = (step-Signed a e sent (pos i) h.own_id h.signed).0;
  signed = (step-Signed a e sent (pos i) h.own_id h.signed).1;
  history = step-History a e sent h.history;
  voted = λ s r v w. elim (step-voted a e sent s r v w) [
    | inl old ↦ h.voted s r v old
    | inr (acc, same, x, y, z) ↦
        for_accept acc s r v x y z (Among-IssuedFor acc issued (from_issued acc same))
  ];
  honest = λ ans m at. step-Answered a e sent ans (h.honest ans m at);
}
  where
    for_accept :
        (acc : Accept) (s : SlotId) (r : Round) (v : Value)
        → acc.slot ≡ s
        → acc.rnd ≡ r
        → acc.val ≡ v
        → IssuedFor acc.slot acc.rnd acc.val issued
        → IssuedFor s r v issued
    for_accept acc s r v x y z h =
        subst (λ t. IssuedFor s r t issued) z
          (subst (λ t. IssuedFor s t acc.val issued) y
            (subst (λ t. IssuedFor t acc.rnd acc.val issued) x h))

issue-Inv :
    (n : ℕ) (c : Cluster) (acc : Accept)
    → IsSafe n c acc
    → ((v : Value) → IssuedFor acc.slot acc.rnd v c.issued → v ≡ acc.val)
    → Inv n c
    → Inv n (record c { issued = acc ∷ c.issued })
issue-Inv n c acc safe only h = record {
  nodes = λ i. record {
    own_id = (h.nodes i).own_id;
    signed = (h.nodes i).signed;
    history = (h.nodes i).history;
    voted = λ s r v w. inr ((h.nodes i).voted s r v w);
    honest = (h.nodes i).honest;
  };
  safe = λ b m. later b (elim m [ inl e ↦ subst (IsSafe n c) e safe | inr old ↦ h.safe b old ]);
  alone = λ s r v w x y. pair s r v w x y;
}
  where
    later : (b : Accept) → IsSafe n c b → IsSafe n (record c { issued = acc ∷ c.issued }) b
    later b = IsSafe-mono n c (record c { issued = acc ∷ c.issued }) b (λ a m. m) (λ i s r v w. w)

    beside :
        (s : SlotId) (r : Round) (v w : Value)
        → (acc.slot ≡ s) × (acc.rnd ≡ r) × (acc.val ≡ v)
        → IssuedFor s r w c.issued
        → w ≡ v
    beside s r v w (a, b, e) o =
        only w (
          subst (λ t. IssuedFor acc.slot t w c.issued) (sym b)
            (subst (λ t. IssuedFor t r w c.issued) (sym a) o))
        ∙ e

    pair :
        (s : SlotId) (r : Round) (v w : Value)
        → IssuedFor s r v (acc ∷ c.issued)
        → IssuedFor s r w (acc ∷ c.issued)
        → v ≡ w
    pair s r v w (inl x) (inl y) = sym x.2 ∙ y.2
    pair s r v w (inl x) (inr y) = sym (beside s r v w x y)
    pair s r v w (inr x) (inl y) = beside s r w v y x
    pair s r v w (inr x) (inr y) = h.alone s r v w x y

accept-Inv :
    (n : ℕ) (c : Cluster) (i : ℕ) (acc : Accept)
    → Among acc c.issued
    → Inv n c
    → Inv n (delivered c i (accept_in acc))
accept-Inv n c i acc m h = record {
  nodes =
      delivered-each (λ j a o. NodeInv j a o c.answers c.issued) c i (accept_in acc) h.nodes
        (step-NodeInv i (c.acceptors i) (accept_in acc) (c.sent i) c.answers c.issued
          (λ b e. subst (λ x. Among x c.issued) (cc e) m) (h.nodes i));
  safe = λ b o.
      IsSafe-mono n c (delivered c i (accept_in acc)) b (λ a k. k)
        (delivered-VotedFor c i (accept_in acc)) (h.safe b o);
  alone = h.alone;
}

-- An answer is added, and it is a true and complete one.
answered-NodeInv :
    (j : ℕ) (a : Acceptor) (sent : List Output) (answers : List Answer) (issued : List Accept)
    (out : Bool) (ans : Answer)
    → NodeInv j a sent answers issued
    → (out ≡ true → ans.node ≡ j → Answered a sent ans)
    → NodeInv j a sent (if out then ans ∷ answers else answers) issued
answered-NodeInv j a sent answers issued false ans h fresh = h
answered-NodeInv j a sent answers issued true ans h fresh = record {
  own_id = h.own_id;
  signed = h.signed;
  history = h.history;
  voted = h.voted;
  honest = λ b m at. elim m [
    | inl e ↦ subst (Answered a sent) e (fresh refl (ap (λ x. x.node) e ∙ at))
    | inr old ↦ h.honest b old at
  ];
}

prepare-Inv :
    (n : ℕ) (c : Cluster) (i : ℕ) (range : Range) (p : Prepare)
    → Listing (c.acceptors i).slots (range (c.acceptors i).slots)
    → Inv n c
    → Inv n (answered c i range p)
prepare-Inv n c i range p visits h = record {
  nodes = λ j.
      answered-NodeInv j ((delivered c i e).acceptors j) ((delivered c i e).sent j) c.answers
        c.issued (handle_prepare range (c.acceptors i) p).2 ans (kept j) (fresh j);
  safe = λ b o.
      IsSafe-mono n c (answered c i range p) b
        (λ a k. more-answers (handle_prepare range (c.acceptors i) p).2 ans a c.answers k)
        (delivered-VotedFor c i e) (h.safe b o);
  alone = h.alone;
}
  where
    e : Event
    e = prepare_in range p

    ans : Answer
    ans = record { node = i; prepare = p; promise = (handle_prepare range (c.acceptors i) p).1 }

    kept :
        (j : ℕ)
        → NodeInv j ((delivered c i e).acceptors j) ((delivered c i e).sent j) c.answers c.issued
    kept =
        delivered-each (λ j a o. NodeInv j a o c.answers c.issued) c i e h.nodes
          (step-NodeInv i (c.acceptors i) e (c.sent i) c.answers c.issued
            (λ b q. absurd (ground (arith, q))) (h.nodes i))

    fresh :
        (j : ℕ)
        → (handle_prepare range (c.acceptors i) p).2 ≡ true
        → i ≡ j
        → Answered ((delivered c i e).acceptors j) ((delivered c i e).sent j) ans
    fresh j out same =
        subst (λ k. Answered ((delivered c i e).acceptors k) ((delivered c i e).sent k) ans) same
          (rw ((nat_beq_iff i i).1 refl) (
            step-answer i range (c.acceptors i) (c.sent i) p (h.nodes i).own_id (h.nodes i).history
              visits out))

pub Step-Inv : {n : ℕ} {c d : Cluster} → Step n c d → Inv n c → Inv n d
Step-Inv {n} {c} (issue acc safe only) h = issue-Inv n c acc safe only h
Step-Inv {n} {c} (accept i acc m) h = accept-Inv n c i acc m h
Step-Inv {n} {c} (prepare i range p visits) h = prepare-Inv n c i range p visits h

start-Inv : (n : ℕ) → Inv n start
unfolding new_acceptor
start-Inv n = record {
  nodes = λ i. record {
    own_id = refl;
    signed = tt;
    history = new-History (pos i);
    voted = λ s r v w. absurd w;
    honest = λ ans m at. absurd m;
  };
  safe = λ acc m. absurd m;
  alone = λ s r v w x y. absurd x;
}

pub Reach-Inv : {n : ℕ} {c : Cluster} → Reach n c → Inv n c
Reach-Inv {n} here = start-Inv n
Reach-Inv (next r st) = Step-Inv st (Reach-Inv r)
