-- ===== src/Cluster/Votes.antt =====
-- The votes that a step of an acceptor adds to those that it has sent.
use multi_paxos_work_in_prog.Common.{ℤ, int_eq, nat_eq, List, [], ◌∷◌, ◌≡◌, refl, ◌⊎◌, inl, inr}
use multi_paxos_work_in_prog.Paxos.{SlotId, Round, Value, Accept}
use multi_paxos_work_in_prog.Paxos.Acceptor.{
  Acceptor, Event, accept_in, prepare_in, Output, learn_out, promise_out, step, send,
}
use multi_paxos_work_in_prog.Paxos.Acceptor.Voting.{VotedFor, accept_cases, prepare_cases}

pub step-VotedFor :
    (a : Acceptor) (e : Event) (sent : List Output) (s : SlotId) (r : Round) (v : Value)
    → VotedFor s r v sent
    → VotedFor s r v (send (step a e).1 sent)
unfolding step
step-VotedFor a (accept_in acc) sent s r v w = elim (accept_cases a acc) [
  | inr (_, e) ↦ rw (e, step) w
  | inl (newer, e) ↦ rw (e, step) (inr w)
]
step-VotedFor a (prepare_in range p) sent s r v w = elim (prepare_cases range a p) [
  | inr (_, _, e) ↦ rw (e, step) w
  | inl (_, _, e) ↦ rw (e, step) w
]

-- A vote of a step is for the accept that it handles.
pub step-voted :
    (a : Acceptor) (e : Event) (sent : List Output) (s : SlotId) (r : Round) (v : Value)
    → VotedFor s r v (send (step a e).1 sent)
    → VotedFor s r v sent
      ⊎ ((acc : Accept) × (e ≡ accept_in acc) × (acc.slot ≡ s) × (acc.rnd ≡ r) × (acc.val ≡ v))
unfolding step
step-voted a (accept_in acc) sent s r v w = elim (accept_cases a acc) [
  | inr (_, e) ↦ inl (rw (e, step) at w)
  | inl (newer, e) ↦ cast (rw (e, step) at w)
]
  where
    cast :
        ((acc.slot ≡ s) × (acc.rnd ≡ r) × (acc.val ≡ v)) ⊎ VotedFor s r v sent
        → VotedFor s r v sent
          ⊎ ((b : Accept) × (accept_in acc ≡ accept_in b)
              × (b.slot ≡ s)
              × (b.rnd ≡ r)
              × (b.val ≡ v))
    cast (inl (x, y, z)) = inr (acc, refl, x, y, z)
    cast (inr o) = inl o
step-voted a (prepare_in range p) sent s r v w = elim (prepare_cases range a p) [
  | inr (_, _, e) ↦ inl (rw (e, step) at w)
  | inl (_, _, e) ↦ inl (rw (e, step) at w)
]

-- The learns carry the id of the node.
abbrev pub Signed : ℤ → List Output → Type 0
Signed id [] = Unit {0}
Signed id (learn_out l ∷ o) = (l.from ≡ id) × Signed id o
Signed id (promise_out p ∷ o) = Signed id o

pub step-Signed :
    (a : Acceptor) (e : Event) (sent : List Output) (id : ℤ)
    → a.id ≡ id
    → Signed id sent
    → ((step a e).0.id ≡ id) × Signed id (send (step a e).1 sent)
unfolding step
step-Signed a (accept_in acc) sent id own h = elim (accept_cases a acc) [
  | inr (_, e) ↦ rw (e, step) (own, h)
  | inl (newer, e) ↦ rw (e, step) (own, (own, h))
]
step-Signed a (prepare_in range p) sent id own h = elim (prepare_cases range a p) [
  | inr (_, b, e) ↦ rw (e, b) (own, h)
  | inl (_, b, e) ↦ rw (e, b) (own, h)
]
