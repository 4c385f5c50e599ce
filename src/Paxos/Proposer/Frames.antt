-- ===== src/Paxos/Proposer/Frames.antt =====
-- What the parts of lab6/multipaxos/proposer.go leave alone.
use multi_paxos_work_in_prog.Common.{
  Bool, false, List, [], ◌∷◌, Option, none, some, arith, ◌≡◌, Bool-cases, inl, inr, Option-cases,
  set, pos_part, ◌==◌, int_eq, ◌&&◌, not, int_beq_iff, subst,
}
use multi_paxos_work_in_prog.Paxos.{PromiseSlot, Promise, Accept, reported}
use multi_paxos_work_in_prog.Paxos.Proposer.{
  Output, promise_in, step, after_promise, Proposer, merge_slot, raise_max, update_promise_slots,
  store_promise, take_promise, check_quorum, handle_promise, promise_of,
}

-- `q` is `p` but for the merged reports and their bounds.
pub record Merges (p q : Proposer) : Type 0 where
  pub id : q.id ≡ p.id
  pub quorum : q.quorum ≡ p.quorum
  pub n : q.n ≡ p.n
  pub crnd : q.crnd ≡ p.crnd
  pub adu : q.adu ≡ p.adu
  pub next_slot : q.next_slot ≡ p.next_slot
  pub promises : q.promises ≡ p.promises
  pub promise_count : q.promise_count ≡ p.promise_count
  pub phase_one_done : q.phase_one_done ≡ p.phase_one_done
  pub accepts_out : q.accepts_out ≡ p.accepts_out
  pub requests_in : q.requests_in ≡ p.requests_in
  pub leader : q.leader ≡ p.leader
  pub sync_promise : q.sync_promise ≡ p.sync_promise

merge-Merges :
    (p : Proposer) (slot : PromiseSlot) → Merges p (raise_max (merge_slot p slot) slot.id)
unfolding merge_slot raise_max
merge-Merges p slot = ground arith

Merges-trans : {p q r : Proposer} → Merges p q → Merges q r → Merges p r
Merges-trans h k = ground arith

pub update-Merges : (p : Proposer) (l : List PromiseSlot) → Merges p (update_promise_slots p l)
unfolding update_promise_slots
update-Merges p [] = ground arith
update-Merges p (slot ∷ l) =
    Merges-trans (merge-Merges p slot) (update-Merges (raise_max (merge_slot p slot) slot.id) l)

-- `q` is `p` but for what a promise may change.
pub record Keeps (p q : Proposer) : Type 0 where
  pub id : q.id ≡ p.id
  pub quorum : q.quorum ≡ p.quorum
  pub n : q.n ≡ p.n
  pub crnd : q.crnd ≡ p.crnd
  pub adu : q.adu ≡ p.adu
  pub next_slot : q.next_slot ≡ p.next_slot
  pub phase_one_done : q.phase_one_done ≡ p.phase_one_done
  pub accepts_out : q.accepts_out ≡ p.accepts_out
  pub requests_in : q.requests_in ≡ p.requests_in
  pub leader : q.leader ≡ p.leader

take_promise-Keeps :
    (p : Proposer) (prm : Promise) (o : Option Promise) → Keeps p (take_promise p prm o)
unfolding take_promise store_promise
take_promise-Keeps p prm none = ground (arith, stored p prm)
  where
    stored :
        (p : Proposer) (prm : Promise)
        → Merges
            (record p { promises = set p.promises (pos_part prm.from) (some prm) })
            (update_promise_slots
              (record p { promises = set p.promises (pos_part prm.from) (some prm) })
              (reported prm.slots))
    stored p prm = update-Merges _ (reported prm.slots)
take_promise-Keeps p prm (some prev) = ground (
  arith,
  update-Merges (record p { promises = set p.promises (pos_part prm.from) (some prm) })
      (reported prm.slots),
)

check_quorum-Keeps : (p : Proposer) → Keeps p (check_quorum p).0
unfolding check_quorum
check_quorum-Keeps p = ground arith

Keeps-trans : {p q r : Proposer} → Keeps p q → Keeps q r → Keeps p r
Keeps-trans h k = ground arith

-- what `handlePromise` returns
pub data Handled (p : Proposer) (prm : Promise)
    : Option (Proposer × List Accept × Bool) → Type 0 where
  ignored : Handled p prm (some (p, [], false))
  panics : promise_of p.promises prm.from ≡ none → Handled p prm none
  taken :
      (o : Option Promise)
      → promise_of p.promises prm.from ≡ some o
      → prm.rnd ≡ p.crnd
      → p.sync_promise ≡ false
      → Handled p prm (some (check_quorum (take_promise p prm o)))

pub handle_promise-Handled : (p : Proposer) (prm : Promise) → Handled p prm (handle_promise p prm)
unfolding handle_promise
handle_promise-Handled p prm = elim (Bool-cases ((prm.rnd == p.crnd) && not p.sync_promise)) [
  | inr no_match ↦ rw (no_match, handle_promise) ignored
  | inl match ↦ elim (Option-cases (promise_of p.promises prm.from)) [
    | inl e ↦ rw (match, e, handle_promise) (panics e)
    | inr (o, e) ↦
        rw (match, e, handle_promise)
          (taken o e (ground (arith, int_beq_iff prm.rnd p.crnd)) (ground arith))
  ]
]

pub handle_promise-Keeps :
    (p : Proposer) (prm : Promise) {r : Option (Proposer × List Accept × Bool)}
    → Handled p prm r
    → {q : Proposer} {accs : List Accept} {b : Bool} → r ≡ some (q, accs, b)
    → Keeps p q
handle_promise-Keeps p prm ignored h = ground arith
handle_promise-Keeps p prm (panics e) h = cc
handle_promise-Keeps p prm (taken o e rnd sync) h =
    subst (Keeps p) (kept h)
      (Keeps-trans (take_promise-Keeps p prm o) (check_quorum-Keeps (take_promise p prm o)))
  where
    kept :
        {a : Proposer × List Accept × Bool} {q : Proposer} {accs : List Accept} {b : Bool}
        → some a ≡ some (q, accs, b)
        → a.0 ≡ q
    kept h = ground arith

-- How a promise that does not panic goes through the loop.
pub record Passed (p : Proposer) (prm : Promise) (q : Proposer) (out : List Output) : Type 0 where
  pub mid : Proposer
  pub accs : List Accept
  pub output : Bool
  pub handled : handle_promise p prm ≡ some (mid, accs, output)
  pub keeps : Keeps p mid
  pub state : q ≡ (after_promise (mid, accs, output)).0
  pub sends : out ≡ (after_promise (mid, accs, output)).1

pub step-Passed :
    (p : Proposer) (prm : Promise) {q : Proposer} {out : List Output}
    → step p (promise_in prm) ≡ some (q, out)
    → Passed p prm q out
unfolding step
step-Passed p prm {q} {out} h = elim (Option-cases (handle_promise p prm)) [
  | inl e ↦ absurd (ground arith)
  | inr ((mid, accs, output), e) ↦ record {
    mid = mid;
    accs = accs;
    output = output;
    handled = e;
    keeps = handle_promise-Keeps p prm (handle_promise-Handled p prm) e;
    state = ground arith;
    sends = ground arith;
  }
]
