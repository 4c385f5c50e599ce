-- ===== src/Paxos/Proposer/Rounds.antt =====
-- The rounds that a proposer of lab6/multipaxos/proposer.go uses.
use multi_paxos_work_in_prog.Common.{
  ℕ, zero, suc, ◌+◌, ◌*◌, ◌<◌, ◌^◌, ℤ, pos, Bool, List, [], ◌∷◌, ◌++◌, some, arith, ◌≡◌, ◌≢◌, refl,
  Option-cases, inl, inr, int_laws, ◌∙◌,
}
use multi_paxos_work_in_prog.Common.Int.{add_int, add_int_lem, ◌+ℤ◌, InRange}
use native.Mathlib.Nat.{add-mul-mod_self_right, mod-eq_of_lt}
use multi_paxos_work_in_prog.Paxos.{Round, Accept}
use multi_paxos_work_in_prog.Paxos.Proposer.{
  Proposer, new_proposer, start_phase_one, after_promise, send_accept, Event, promise_in, cval_in,
  inc_dcd, progress_tick, trust, Output, prepare_out, accept_out, server_leader, step, run,
}
use multi_paxos_work_in_prog.Paxos.Proposer.Frames.{step-Passed}

-- the prepares among the outputs
abbrev pub prepares : List Output → ℕ
prepares [] = 0
prepares (prepare_out p ∷ o) = suc (prepares o)
prepares (accept_out a ∷ o) = prepares o
prepares (server_leader l ∷ o) = prepares o

pub prepares-append : (a b : List Output) → prepares (a ++ b) ≡ prepares a + prepares b
prepares-append [] b = omega arith
prepares-append (prepare_out p ∷ a) b = omega (arith, prepares-append a b)
prepares-append (accept_out p ∷ a) b = prepares-append a b
prepares-append (server_leader p ∷ a) b = prepares-append a b

-- the round after `k` steps of `n`
abbrev pub advance : ℕ → ℕ → Round → Round
advance zero n r = r
advance (suc k) n r = add_int (advance k n r) (pos n)

pub record Advances (p q : Proposer) (k : ℕ) : Type 0 where
  pub id : q.id ≡ p.id
  pub n : q.n ≡ p.n
  pub crnd : q.crnd ≡ advance k p.n p.crnd

send_accept-Advances : (p : Proposer) → Advances p (send_accept p).0 0
unfolding send_accept
send_accept-Advances p = ground arith

promise-Advances :
    (p : Proposer) (accs : List Accept) (output : Bool)
    → Advances p (after_promise (p, accs, output)).0 (prepares (after_promise (p, accs, output)).1)
unfolding after_promise send_accept
promise-Advances p accs output = ground arith

pub step-Advances :
    (p : Proposer) (e : Event) {q : Proposer} {out : List Output}
    → step p e ≡ some (q, out)
    → Advances p q (prepares out)
unfolding step
step-Advances p (promise_in prm) h =
    let r = step-Passed p prm h in let s = promise-Advances r.mid r.accs r.output in ground arith
step-Advances p (cval_in v) h =
    ground (arith, send_accept-Advances (record p { requests_in = p.requests_in ++ v ∷ [] }))
step-Advances p inc_dcd h =
    ground (arith, send_accept-Advances (record p { adu = add_int p.adu (pos 1) }))
step-Advances p progress_tick h = unfold start_phase_one in ground arith
step-Advances p (trust l) h = unfold start_phase_one in ground arith

-- the value of the round after `k` steps from `i`
pub advance_lem : (k n i : ℕ) → i + k * n < 2 ^ 63 → advance k n (pos i) ≡ pos (i + k * n)
advance_lem zero n i h = ground arith
advance_lem (suc k) n i h =
    rw (advance_lem k n i (grind arith)) (add_int_lem (pos (i + k * n)) (pos n) in_range ∙ sum)
  where
    in_range : InRange (pos (i + k * n) +ℤ pos n)
    in_range = grind int_laws

    sum : pos (i + k * n) +ℤ pos n ≡ pos (i + suc k * n)
    sum = omega int_laws

advance-add : (a b n : ℕ) (r : Round) → advance a n (advance b n r) ≡ advance (a + b) n r
advance-add zero b n r = let e : 0 + b ≡ b = omega arith in rw e
advance-add (suc a) b n r =
    let e : suc a + b ≡ suc (a + b) = omega arith in rw (e, advance-add a b n r)

-- A proposer on its way: its round is its id plus `n` for each prepare it sent.
pub record OnTrack (i n : ℕ) (p : Proposer) (sent : List Output) : Type 0 where
  pub id : p.id ≡ pos i
  pub nodes : p.n ≡ n
  pub crnd : p.crnd ≡ advance (prepares sent) n (pos i)

pub step-OnTrack :
    (i n : ℕ) (p q : Proposer) (sent out : List Output)
    → OnTrack i n p sent
    → Advances p q (prepares out)
    → OnTrack i n q (out ++ sent)
step-OnTrack i n p q sent out t a = record {
  id = ground arith;
  nodes = ground arith;
  crnd =
      rw (prepares-append out sent, a.crnd, t.nodes, t.crnd)
        (advance-add (prepares out) (prepares sent) n (pos i));
}

run-OnTrack :
    (i n : ℕ) (p : Proposer) (sent : List Output) (es : List Event) {q : Proposer}
    {sent' : List Output}
    → OnTrack i n p sent
    → run p sent es ≡ some (q, sent')
    → OnTrack i n q sent'
unfolding run
run-OnTrack i n p sent [] t h = ground arith
run-OnTrack i n p sent (e ∷ es) {q} {sent'} t h = elim (Option-cases (step p e)) [
  | inl s ↦ absurd (ground arith)
  | inr ((r, out), s) ↦
      run-OnTrack i n r (out ++ sent) es (step-OnTrack i n p r sent out t (step-Advances p e s))
        (ground arith)
]

pub new-OnTrack : (i n : ℕ) (adu leader : ℤ) → OnTrack i n (new_proposer (pos i) n adu leader) []
unfolding new_proposer
new-OnTrack i n adu leader = record { id = refl; nodes = refl; crnd = refl }

-- While no round passes the largest `int`, a proposer that was started with id `i` among `n` nodes
-- and has sent `k` prepares has the round `i + k * n`, whatever events it has handled.
pub run-crnd :
    (i n : ℕ) (adu leader : ℤ) (es : List Event) {q : Proposer} {sent : List Output}
    → run (new_proposer (pos i) n adu leader) [] es ≡ some (q, sent)
    → i + prepares sent * n < 2 ^ 63
    → q.crnd ≡ pos (i + prepares sent * n)
run-crnd i n adu leader es {q} {sent} h small =
    (run-OnTrack i n (new_proposer (pos i) n adu leader) [] es (new-OnTrack i n adu leader) h).crnd
    ∙ advance_lem (prepares sent) n i small

-- Two proposers with different ids below the number of nodes, each after any run from its start,
-- do not have the same round, while the id plus the number of nodes for each prepare sent is below
-- 2 ^ 63 for both.
pub rounds_disjoint :
    (i j n : ℕ) (adu adu' leader leader' : ℤ) (es es' : List Event) {q q' : Proposer}
    {sent sent' : List Output}
    → i < n
    → j < n
    → i ≢ j
    → run (new_proposer (pos i) n adu leader) [] es ≡ some (q, sent)
    → run (new_proposer (pos j) n adu' leader') [] es' ≡ some (q', sent')
    → i + prepares sent * n < 2 ^ 63
    → j + prepares sent' * n < 2 ^ 63
    → q.crnd ≢ q'.crnd
rounds_disjoint i j n adu adu' leader leader' es es' {sent} {sent'} hi hj ne h h' s s' same = ne (
    ground (
      arith,
      run-crnd i n adu leader es h s,
      run-crnd j n adu' leader' es' h' s',
      add-mul-mod_self_right i (prepares sent) n,
      add-mul-mod_self_right j (prepares sent') n,
      mod-eq_of_lt hi,
      mod-eq_of_lt hj,
      numbers,
    ))
  where
    numbers : i + prepares sent * n ≡ j + prepares sent' * n
    numbers = ground (arith, run-crnd i n adu leader es h s, run-crnd j n adu' leader' es' h' s')
