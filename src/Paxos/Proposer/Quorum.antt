-- ===== src/Paxos/Proposer/Quorum.antt =====
-- The promises that a proposer of lab6/multipaxos/proposer.go counts in Phase One.
use multi_paxos_work_in_prog.Common.{
  ℕ, zero, suc, ◌+◌, ◌*◌, ◌/◌, ◌≤◌, ◌<◌, ℤ, pos, negsuc, pos_part, Bool, true, false, List, [], ◌∷◌,
  ◌++◌, Option, none, some, arith, ◌≡◌, refl, ◌∙◌, ◌⊎◌, Option-cases, inl, inr, length, count,
  get_elem?, set, replicate, subst, sym, ap,
}
use multi_paxos_work_in_prog.Common.Int.{add_int}
use multi_paxos_work_in_prog.Paxos.{Round, Accept, Promise, reported}
use multi_paxos_work_in_prog.Paxos.Proposer.{
  Proposer, new_proposer, start_phase_one, after_promise, send_accept, handle_promise, take_promise,
  store_promise, check_quorum, promise_of, Event, promise_in, cval_in, inc_dcd, progress_tick,
  trust, Output, step, run,
}
use multi_paxos_work_in_prog.Paxos.Proposer.Frames.{
  Handled, ignored, panics, taken, handle_promise-Handled, Merges, step-Passed, update-Merges,
  handle_promise-Keeps,
}

abbrev pub is_promised : Option Promise → Bool
is_promised none = false
is_promised (some r) = true

-- The entries count as many senders as `count` says, each under its own index and of this round.
pub record Counted (n : ℕ) (crnd : Round) (promises : List (Option Promise)) (total : ℕ)
    : Type 0 where
  pub sized : length promises ≡ n
  pub counted : total ≡ count is_promised promises
  pub placed :
      (i : ℕ) (r : Promise)
      → get_elem? promises i ≡ some (some r)
      → (r.from ≡ pos i) × (r.rnd ≡ crnd)

length-set :
    (l : List (Option Promise)) (i : ℕ) (o : Option Promise) → length (set l i o) ≡ length l
length-set [] i o = refl
length-set (x ∷ l) zero o = refl
length-set (x ∷ l) (suc i) o = ap suc (length-set l i o)

count-set :
    (l : List (Option Promise)) (i : ℕ) (r : Promise)
    → get_elem? l i ≡ some none
    → count is_promised (set l i (some r)) ≡ count is_promised l + 1
count-set [] i r h = cc
count-set (x ∷ l) zero r h = ground arith
count-set (x ∷ l) (suc i) r h = omega (arith, count-set l i r h)

pub get_elem?-set :
    (l : List (Option Promise)) (i j : ℕ) (o p : Option Promise)
    → get_elem? (set l i o) j ≡ some p
    → ((i ≡ j) × (p ≡ o)) ⊎ (get_elem? l j ≡ some p)
get_elem?-set [] i j o p h = cc
get_elem?-set (x ∷ l) zero zero o p h = inl (refl, ground arith)
get_elem?-set (x ∷ l) zero (suc j) o p h = inr h
get_elem?-set (x ∷ l) (suc i) zero o p h = inr h
get_elem?-set (x ∷ l) (suc i) (suc j) o p h = elim (get_elem?-set l i j o p h) [
  | inl e ↦ inl (ap suc e.0, e.1)
  | inr e ↦ inr e
]

replicate-Counted : (n : ℕ) (crnd : Round) → Counted n crnd (replicate n none) 0
replicate-Counted n crnd = record {
  sized = sizes n;
  counted = counts n;
  placed = λ i r h. absurd (nothing n i r h);
}
  where
    sizes : (n : ℕ) → length (replicate {A = Option Promise} n none) ≡ n
    sizes zero = refl
    sizes (suc n) = ap suc (sizes n)

    counts : (n : ℕ) → 0 ≡ count is_promised (replicate n none)
    counts zero = refl
    counts (suc n) = omega (arith, counts n)

    nothing : (n i : ℕ) (r : Promise) → get_elem? (replicate n none) i ≡ some (some r) → ⊥
    nothing zero i r h = cc
    nothing (suc n) zero r h = cc
    nothing (suc n) (suc i) r h = nothing n i r h

abbrev Counts : ℕ → Proposer → Type 0
Counts n p = Counted n p.crnd p.promises p.promise_count

add-Counted :
    (n : ℕ) (crnd : Round) (l : List (Option Promise)) (total i : ℕ) (r : Promise)
    → Counted n crnd l total
    → get_elem? l i ≡ some none
    → r.from ≡ pos i
    → r.rnd ≡ crnd
    → Counted n crnd (set l i (some r)) (total + 1)
add-Counted n crnd l total i r c h from rnd = record {
  sized = length-set l i (some r) ∙ c.sized;
  counted = omega (arith, count-set l i r h, c.counted);
  placed = λ j q e. elim (get_elem?-set l i j (some r) (some q) e) [
    | inl (ij, qr) ↦ ground arith
    | inr old ↦ c.placed j q old
  ];
}

pub promise_of-index :
    (l : List (Option Promise)) (from : ℤ) (o : Option Promise)
    → promise_of l from ≡ some o
    → (from ≡ pos (pos_part from)) × (get_elem? l (pos_part from) ≡ some o)
unfolding promise_of
promise_of-index l (pos i) o h = (refl, h)
promise_of-index l (negsuc i) o h = absurd (cc)

pub store_promise-Merges :
    (p : Proposer) (prm : Promise)
    → Merges
        (record p { promises = set p.promises (pos_part prm.from) (some prm) })
        (store_promise p prm)
unfolding store_promise
store_promise-Merges p prm = update-Merges _ (reported prm.slots)

-- A second promise of a sender for the same round changes nothing.
pub take_promise_again :
    (p : Proposer) (prm prev : Promise) → prev.rnd ≡ prm.rnd → take_promise p prm (some prev) ≡ p
unfolding take_promise
take_promise_again p prm prev e = ground arith

take_promise-Counts :
    (n : ℕ) (p : Proposer) (prm : Promise) (o : Option Promise)
    → Counts n p
    → promise_of p.promises prm.from ≡ some o
    → prm.rnd ≡ p.crnd
    → Counts n (take_promise p prm o)
take_promise-Counts n p prm (some prev) c at rnd =
    let (here, found) = promise_of-index p.promises prm.from (some prev) at in
    rw (take_promise_again p prm prev ((c.placed (pos_part prm.from) prev found).1 ∙ sym rnd)) c
take_promise-Counts n p prm none c at rnd =
    let (here, found) = promise_of-index p.promises prm.from none at in
    stored here
      (add-Counted n p.crnd p.promises p.promise_count (pos_part prm.from) prm c found here rnd)
  where
    stored :
        prm.from ≡ pos (pos_part prm.from)
        → Counted n p.crnd (set p.promises (pos_part prm.from) (some prm)) (p.promise_count + 1)
        → Counts n (take_promise p prm none)
    stored here k =
        let m = store_promise-Merges p prm in
        unfold take_promise in rw (m.crnd, m.promises, m.promise_count) k

Handled-Counts :
    (n : ℕ) (p : Proposer) (prm : Promise) {r : Option (Proposer × List Accept × Bool)}
    → Counts n p
    → Handled p prm r
    → {q : Proposer} {accs : List Accept} {b : Bool} → r ≡ some (q, accs, b)
    → Counts n q × (b ≡ true → q.quorum ≤ q.promise_count)
Handled-Counts n p prm c ignored h = ground arith
Handled-Counts n p prm c (panics e) h = absurd (cc)
Handled-Counts n p prm c (taken o e rnd sync) h =
    checked (take_promise p prm o) (take_promise-Counts n p prm o c e rnd) h
  where
    checked :
        (t : Proposer) {q : Proposer} {accs : List Accept} {b : Bool}
        → Counts n t
        → some (check_quorum t) ≡ some (q, accs, b)
        → Counts n q × (b ≡ true → q.quorum ≤ q.promise_count)
    checked t k e = unfold check_quorum in ground arith

-- What a proposer that was started among `n` nodes keeps.
record Steady (n : ℕ) (p : Proposer) : Type 0 where
  nodes : p.n ≡ n
  quorum : p.quorum ≡ n / 2 + 1
  counts : Counts n p

send_accept-Steady : (n : ℕ) (p : Proposer) → Steady n p → Steady n (send_accept p).0
unfolding send_accept
send_accept-Steady n p s = ground arith

after_promise-Steady :
    (n : ℕ) (p : Proposer) (accs : List Accept) (b : Bool)
    → Steady n p
    → Steady n (after_promise (p, accs, b)).0
unfolding after_promise send_accept
after_promise-Steady n p accs b s = ground arith

start-Steady : (n : ℕ) (p : Proposer) → Steady n p → Steady n (start_phase_one p).0
unfolding start_phase_one
start-Steady n p s = record {
  nodes = s.nodes;
  quorum = s.quorum;
  counts = rw s.nodes (replicate-Counted n _);
}

step-Steady :
    (n : ℕ) (p : Proposer) (e : Event) {q : Proposer} {out : List Output}
    → Steady n p
    → step p e ≡ some (q, out)
    → Steady n q
unfolding step
step-Steady n p (promise_in prm) {q} s h =
    let r = step-Passed p prm h in
    subst (Steady n) (sym r.state) (
      after_promise-Steady n r.mid r.accs r.output (record {
        nodes = r.keeps.n ∙ s.nodes;
        quorum = r.keeps.quorum ∙ s.quorum;
        counts = (Handled-Counts n p prm s.counts (handle_promise-Handled p prm) r.handled).0;
      }))
step-Steady n p (cval_in v) s h =
    ground (arith, send_accept-Steady n (record p { requests_in = p.requests_in ++ v ∷ [] }))
step-Steady n p inc_dcd s h =
    ground (arith, send_accept-Steady n (record p { adu = add_int p.adu (pos 1) }))
step-Steady n p progress_tick s h = ground (arith, start-Steady n p)
step-Steady n p (trust l) s h =
    ground (arith, start-Steady n (record p { leader = l; sync_promise = false }))

run-Steady :
    (n : ℕ) (p : Proposer) (sent : List Output) (es : List Event) {q : Proposer}
    {sent' : List Output}
    → Steady n p
    → run p sent es ≡ some (q, sent')
    → Steady n q
unfolding run
run-Steady n p sent [] s h = ground arith
run-Steady n p sent (e ∷ es) {q} {sent'} s h = elim (Option-cases (step p e)) [
  | inl x ↦ absurd (ground arith)
  | inr ((r, out), x) ↦
      run-Steady n r (out ++ sent) es {sent' = sent'} (step-Steady n p e s x) (ground arith)
]

new-Steady : (id : ℤ) (n : ℕ) (adu leader : ℤ) → Steady n (new_proposer id n adu leader)
unfolding new_proposer
new-Steady id n adu leader = record { nodes = refl; quorum = refl; counts = replicate-Counted n id }

-- In every state that a proposer of `n` nodes can reach, a promise that completes Phase One leaves
-- promises of more than half of the nodes: each stands under the index of its own sender, so the
-- senders differ, and each is for the proposer's current round.
pub phase_one_majority :
    (id : ℤ) (n : ℕ) (adu leader : ℤ) (es : List Event) {p : Proposer} {sent : List Output}
    (prm : Promise) {q : Proposer} {accs : List Accept}
    → run (new_proposer id n adu leader) [] es ≡ some (p, sent)
    → handle_promise p prm ≡ some (q, accs, true)
    → (n < 2 * count is_promised q.promises)
      × (length q.promises ≡ n)
      × ((i : ℕ) (r : Promise)
          → get_elem? q.promises i ≡ some (some r)
          → (r.from ≡ pos i) × (r.rnd ≡ q.crnd))
phase_one_majority id n adu leader es {p} prm {q} h k =
    let s = run-Steady n _ [] es (new-Steady id n adu leader) h in
    let (c, enough) = Handled-Counts n p prm s.counts (handle_promise-Handled p prm) k in
    let keeps = handle_promise-Keeps p prm (handle_promise-Handled p prm) k in
    (omega (arith, c.counted, enough refl, keeps.quorum, s.quorum), c.sized, c.placed)
