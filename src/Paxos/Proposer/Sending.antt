-- ===== src/Paxos/Proposer/Sending.antt =====
-- Which accepts the run loop of lab6/multipaxos/proposer.go sends.
use multi_paxos_work_in_prog.Common.{
  ℕ, zero, suc, ℤ, pos, pos_part, ◌-ℤ◌, Bool, true, false, List, [], ◌∷◌, ◌++◌, Option, none, some,
  arith, ◌≡◌, refl, All, int_eq, Option-cases, inl, inr, subst,
}
use multi_paxos_work_in_prog.Common.Int.{add_int}
use multi_paxos_work_in_prog.Paxos.{Round, Value, Accept, Promise}
use multi_paxos_work_in_prog.Paxos.Proposer.{
  Proposer, new_proposer, accepts_from, create_accept_message, check_quorum, take_promise,
  start_phase_one, send_first, send_accept, accepts_sent, after_promise, Event, promise_in, cval_in,
  inc_dcd, progress_tick, trust, Output, prepare_out, accept_out, server_leader, step, run,
}
use multi_paxos_work_in_prog.Paxos.Proposer.Frames.{
  Handled, ignored, panics, taken, handle_promise-Handled, step-Passed,
}

-- The accept is from the node `id` and for the round `r`.
abbrev pub IsOwn : ℤ → Round → Accept → Type 0
IsOwn id r a = (a.from ≡ id) × (a.rnd ≡ r)

accepts_from-IsOwn : (f : ℕ) (p : Proposer) (s : ℤ) → All (IsOwn p.id p.crnd) (accepts_from f p s)
unfolding accepts_from
accepts_from-IsOwn zero p s = tt
accepts_from-IsOwn (suc f) p s = ground (arith, accepts_from-IsOwn f p (add_int s (pos 1)))

-- Once Phase One is done, the queued accepts are of the current round.
abbrev QueueIsOwn : Proposer → Type 0
QueueIsOwn p = p.phase_one_done ≡ true → All (IsOwn p.id p.crnd) p.accepts_out

-- Accepts among these outputs are of this proposer's round, and Phase One is done.
abbrev pub SendsOwn : Proposer → List Output → Type 0
SendsOwn q [] = Unit {0}
SendsOwn q (accept_out a ∷ o) = IsOwn q.id q.crnd a × (q.phase_one_done ≡ true) × SendsOwn q o
SendsOwn q (prepare_out a ∷ o) = SendsOwn q o
SendsOwn q (server_leader a ∷ o) = SendsOwn q o

record Sends (q : Proposer) (out : List Output) : Type 0 where
  queue : QueueIsOwn q
  own : SendsOwn q out

first-Sends :
    (p : Proposer) (l : List Accept) (vs : List Value)
    → All (IsOwn p.id p.crnd) l
    → p.phase_one_done ≡ true
    → let (q, out) = accepts_sent (send_first (record p { accepts_out = l }) l vs) in Sends q out
unfolding send_first
first-Sends p [] [] a d = ground arith
first-Sends p [] (v ∷ vs) a d = ground arith
first-Sends p (acc ∷ l) vs a d = ground arith

send_accept-Sends :
    (p : Proposer)
    → QueueIsOwn p
    → p.phase_one_done ≡ true
    → Sends (accepts_sent (send_accept p)).0 (accepts_sent (send_accept p)).1
unfolding send_accept
send_accept-Sends p q d = ground (arith, first-Sends p p.accepts_out p.requests_in (q d) d)

abbrev AccsOwn : Option (Proposer × List Accept × Bool) → Type 0
AccsOwn none = Unit {0}
AccsOwn (some (q, accs, b)) = All (IsOwn q.id q.crnd) accs

check_quorum-AccsOwn : (p : Proposer) → AccsOwn (some (check_quorum p))
unfolding check_quorum create_accept_message
check_quorum-AccsOwn p =
    ground
      (arith, accepts_from-IsOwn (suc (suc (pos_part (p.max_slot -ℤ p.min_slot)))) p p.min_slot)

Handled-AccsOwn :
    (p : Proposer) (prm : Promise) {r : Option (Proposer × List Accept × Bool)}
    → Handled p prm r
    → AccsOwn r
Handled-AccsOwn p prm ignored = tt
Handled-AccsOwn p prm (panics e) = tt
Handled-AccsOwn p prm (taken o e rnd sync) = check_quorum-AccsOwn (take_promise p prm o)

after_promise-Sends :
    (p : Proposer) (accs : List Accept) (b : Bool)
    → QueueIsOwn p
    → All (IsOwn p.id p.crnd) accs
    → Sends (after_promise (p, accs, b)).0 (after_promise (p, accs, b)).1
unfolding after_promise
after_promise-Sends p accs false q a = record { queue = q; own = tt }
after_promise-Sends p accs true q a =
    send_accept-Sends
      (record p {
        next_slot = add_int p.adu (pos 1);
        phase_one_done = true;
        is_first_phase = false;
        accepts_out = accs;
      })
      (λ d. a) refl

start-Sends :
    (p : Proposer) (o : List Output)
    → SendsOwn (start_phase_one p).0 o
    → Sends (start_phase_one p).0 (prepare_out (start_phase_one p).1 ∷ o)
unfolding start_phase_one
start-Sends p o s = record { queue = λ d. cc; own = s }

step-Sends :
    (p : Proposer) (e : Event) {q : Proposer} {out : List Output}
    → QueueIsOwn p
    → step p e ≡ some (q, out)
    → Sends q out
unfolding step
step-Sends p (promise_in prm) {q} {out} own h =
    let r = step-Passed p prm h in
    let k = r.keeps in
    let queue : QueueIsOwn r.mid = rw (k.id, k.crnd, k.phase_one_done, k.accepts_out) own in
    let accs : All (IsOwn r.mid.id r.mid.crnd) r.accs =
      subst AccsOwn r.handled (Handled-AccsOwn p prm (handle_promise-Handled p prm)) in
    rw (r.state, r.sends) (after_promise-Sends r.mid r.accs r.output queue accs)
step-Sends p (cval_in v) own h =
    ground (arith, send_accept-Sends (record p { requests_in = p.requests_in ++ v ∷ [] }) own)
step-Sends p inc_dcd own h =
    ground (arith, send_accept-Sends (record p { adu = add_int p.adu (pos 1) }) own)
step-Sends p progress_tick own h = ground (arith, start-Sends p [] tt)
step-Sends p (trust l) own h =
    ground (arith, start-Sends (record p { leader = l; sync_promise = false }) [] tt)

run-QueueIsOwn :
    (p : Proposer) (sent : List Output) (es : List Event) {q : Proposer} {sent' : List Output}
    → QueueIsOwn p
    → run p sent es ≡ some (q, sent')
    → QueueIsOwn q
unfolding run
run-QueueIsOwn p sent [] {q} own h = subst QueueIsOwn {x = p} {y = q} (cc) own
run-QueueIsOwn p sent (e ∷ es) {q} {sent'} own h = elim (Option-cases (step p e)) [
  | inl x ↦ absurd (ground arith)
  | inr ((r, out), x) ↦
      run-QueueIsOwn r (out ++ sent) es {q = q} {sent' = sent'} (step-Sends p e own x).queue
        (ground arith)
]

-- In every state that a proposer can reach, each accept that a step sends carries the proposer's
-- own id and the round that it has after the step, and is sent with Phase One done.
pub accepts_are_own :
    (id : ℤ) (n : ℕ) (adu leader : ℤ) (es : List Event) {p : Proposer} {sent : List Output}
    (e : Event) {q : Proposer} {out : List Output}
    → run (new_proposer id n adu leader) [] es ≡ some (p, sent)
    → step p e ≡ some (q, out)
    → SendsOwn q out
accepts_are_own id n adu leader es e h k =
    (step-Sends _ e (run-QueueIsOwn (new_proposer id n adu leader) [] es start h) k).own
  where
    start : QueueIsOwn (new_proposer id n adu leader)
    start = unfold new_proposer in λ d. tt
