-- ===== src/Cluster.antt =====
-- Several nodes of lab6 together: the acceptors of lab6/multipaxos/acceptor.go on a network that
-- loses, repeats and reorders messages, and accepts from proposers that keep a contract.
pub mod Voting
pub mod Votes
pub mod Delivery
pub mod Invariant
pub mod Agreement
pub mod Learning
pub mod Answers
pub mod Proposing
use multi_paxos_work_in_prog.Common.{
  ℕ, ◌+◌, ◌*◌, ◌<◌, ℤ, pos, int_eq, ◌==◌, nat_eq, ◌≤ℤ◌, ◌<ℤ◌, Bool, true, false, if◌then◌else◌,
  List, [], ◌∷◌, Option, none, some, ◌≡◌, ◌⊎◌,
}
use multi_paxos_work_in_prog.Common.GoMap.{lookup, Listing}
use multi_paxos_work_in_prog.Common.Quorums.{IsMajority}
use multi_paxos_work_in_prog.Paxos.{
  SlotId, Round, Value, Prepare, PromiseSlot, Promise, Accept, reported,
}
use multi_paxos_work_in_prog.Paxos.Acceptor.{
  Acceptor, new_acceptor, Range, handle_prepare, Event, accept_in, prepare_in, Output, step, send,
}
use multi_paxos_work_in_prog.Paxos.Acceptor.Sorting.{by_id}
use multi_paxos_work_in_prog.Paxos.Acceptor.Voting.{VotedFor}

-- The promise of a node, with the prepare that it answers.
pub record Answer : Type 0 where
  pub node : ℕ
  pub prepare : Prepare
  pub promise : Promise

-- What the promise reports for a slot.
abbrev pub report : SlotId → Answer → Option PromiseSlot
report s ans = lookup s (by_id (reported ans.promise.slots))

-- The acceptors, what each has sent (the newest first), the promises, and the accepts that
-- proposers have sent.
pub record Cluster : Type 0 where
  pub acceptors : ℕ → Acceptor
  pub sent : ℕ → List Output
  pub answers : List Answer
  pub issued : List Accept

abbrev pub Among : {A : Type 0} → A → List A → Type 0
Among a [] = ⊥
Among a (x ∷ l) = (x ≡ a) ⊎ Among a l

-- An accept with this slot, round and value.
abbrev pub IssuedFor : SlotId → Round → Value → List Accept → Type 0
IssuedFor s r v [] = ⊥
IssuedFor s r v (a ∷ l) = ((a.slot ≡ s) × (a.rnd ≡ r) × (a.val ≡ v)) ⊎ IssuedFor s r v l

-- Some node has voted for the value in round `k`, and no promise of the quorum reports a vote of a
-- higher round.
pub record Bound (n : ℕ) (c : Cluster) (acc : Accept) (quorum : ℕ → Bool) (answer : ℕ → Answer)
    : Type 0 where
  pub voter : ℕ
  pub round : Round
  pub voted : VotedFor acc.slot round acc.val (c.sent voter)
  pub earlier : round <ℤ acc.rnd
  pub highest :
      (i : ℕ)
      → i < n
      → quorum i ≡ true
      → (q : PromiseSlot) → report acc.slot (answer i) ≡ some q
      → q.vrnd ≤ℤ round

-- What Phase One is for: promises of a majority for the accept's round and from its slot on, and
-- the value that they leave to the proposer, or any value where they report none.
pub record IsSafe (n : ℕ) (c : Cluster) (acc : Accept) : Type 0 where
  pub quorum : ℕ → Bool
  pub answer : ℕ → Answer
  pub majority : IsMajority n quorum
  pub promised :
      (i : ℕ)
      → i < n
      → quorum i ≡ true
      → Among (answer i) c.answers
        × ((answer i).node ≡ i)
        × ((answer i).prepare.crnd ≡ acc.rnd)
        × ((answer i).prepare.slot ≤ℤ acc.slot)
  pub choice :
      ((i : ℕ) → i < n → quorum i ≡ true → report acc.slot (answer i) ≡ none)
      ⊎ Bound n c acc quorum answer

abbrev pub update {ℓ} : {A : Type ℓ} → (ℕ → A) → ℕ → A → ℕ → A
update f i x j = if i == j then x else f j

-- The node handles a message.
abbrev pub delivered : Cluster → ℕ → Event → Cluster
delivered c i e = record c {
  acceptors = update c.acceptors i (step (c.acceptors i) e).0;
  sent = update c.sent i (send (step (c.acceptors i) e).1 (c.sent i));
}

-- The node handles a prepare; an answer, if there is one, is on the network from then on.
abbrev pub answered : Cluster → ℕ → Range → Prepare → Cluster
answered c i range p =
    let (b, prm, out) = handle_prepare range (c.acceptors i) p in
    record (delivered c i (prepare_in range p)) {
      answers =
          if out then record { node = i; prepare = p; promise = prm } ∷ c.answers else c.answers;
    }

-- What may happen next. A proposer sends a safe accept, the only one for its slot and round; a node
-- gets an accept that was sent, at any time and any number of times; or it gets any prepare.
pub data Step (n : ℕ) (c : Cluster) : Cluster → Type 0 where
  issue :
      (acc : Accept)
      → IsSafe n c acc
      → ((v : Value) → IssuedFor acc.slot acc.rnd v c.issued → v ≡ acc.val)
      → Step n c (record c { issued = acc ∷ c.issued })
  accept : (i : ℕ) (acc : Accept) → Among acc c.issued → Step n c (delivered c i (accept_in acc))
  prepare :
      (i : ℕ) (range : Range) (p : Prepare)
      → Listing (c.acceptors i).slots (range (c.acceptors i).slots)
      → Step n c (answered c i range p)

abbrev pub start : Cluster
start = record { acceptors = λ i. new_acceptor (pos i); sent = λ i. []; answers = []; issued = [] }

-- The clusters of `n` nodes that can come about.
pub data Reach (n : ℕ) : Cluster → Type 0 where
  here : Reach n start
  next : {c d : Cluster} → Reach n c → Step n c d → Reach n d
