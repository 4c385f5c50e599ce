-- ===== src/Paxos/Proposer/Asking.antt =====
-- The slots from which lab6/multipaxos/proposer.go asks for promises (`startPhaseOne`), over a run.
use multi_paxos_work_in_prog.Common.{
  ℕ, suc, ◌+◌, ◌<◌, ◌^◌, ℤ, pos, pos_part, ◌+ℤ◌, ◌≤ℤ◌, List, [], ◌∷◌, ◌++◌, some, arith, ◌≡◌, ◌⊎◌,
  subst, Option-cases, inl, inr, length, Bool,
}
use multi_paxos_work_in_prog.Common.Int.{add_int, add_int_lem, InRange}
use multi_paxos_work_in_prog.Paxos.{SlotId, Accept}
use multi_paxos_work_in_prog.Paxos.Proposer.{
  Proposer, new_proposer, start_phase_one, after_promise, send_accept, Event, promise_in, cval_in,
  inc_dcd, progress_tick, trust, Output, prepare_out, accept_out, server_leader, step, run,
}
use multi_paxos_work_in_prog.Paxos.Proposer.Frames.{step-Passed}

-- The prepares ask from a slot up to `s` on.
abbrev pub AskedUpTo : SlotId → List Output → Type 0
AskedUpTo s [] = Unit {0}
AskedUpTo s (prepare_out p ∷ o) = (p.slot ≤ℤ s) × AskedUpTo s o
AskedUpTo s (accept_out a ∷ o) = AskedUpTo s o
AskedUpTo s (server_leader l ∷ o) = AskedUpTo s o

AskedUpTo-mono : (s t : SlotId) (o : List Output) → s ≤ℤ t → AskedUpTo s o → AskedUpTo t o
AskedUpTo-mono s t [] le h = tt
AskedUpTo-mono s t (prepare_out p ∷ o) le h = (omega (arith, le, h.0), AskedUpTo-mono s t o le h.1)
AskedUpTo-mono s t (accept_out a ∷ o) le h = AskedUpTo-mono s t o le h
AskedUpTo-mono s t (server_leader l ∷ o) le h = AskedUpTo-mono s t o le h

AskedUpTo-append :
    (s : SlotId) (a b : List Output) → AskedUpTo s a → AskedUpTo s b → AskedUpTo s (a ++ b)
AskedUpTo-append s [] b h k = k
AskedUpTo-append s (prepare_out p ∷ a) b h k = (h.0, AskedUpTo-append s a b h.1 k)
AskedUpTo-append s (accept_out p ∷ a) b h k = AskedUpTo-append s a b h k
AskedUpTo-append s (server_leader p ∷ a) b h k = AskedUpTo-append s a b h k

-- What a round of the loop does to `adu`, and which prepares it sends.
record Asks (p q : Proposer) (out : List Output) : Type 0 where
  adu : (q.adu ≡ p.adu) ⊎ (q.adu ≡ add_int p.adu (pos 1))
  asked : AskedUpTo q.adu out

send_accept-adu : (p : Proposer) → (send_accept p).0.adu ≡ p.adu
unfolding send_accept
send_accept-adu p = ground arith

promise-Asks :
    (p : Proposer) (accs : List Accept) (b : Bool)
    → Asks p (after_promise (p, accs, b)).0 (after_promise (p, accs, b)).1
unfolding after_promise send_accept
promise-Asks p accs b = ground arith

step-Asks :
    (p : Proposer) (e : Event) {q : Proposer} {out : List Output}
    → step p e ≡ some (q, out)
    → Asks p q out
unfolding step
step-Asks p (promise_in prm) h =
    let r = step-Passed p prm h in let s = promise-Asks r.mid r.accs r.output in ground arith
step-Asks p (cval_in v) h =
    ground (arith, send_accept-adu (record p { requests_in = p.requests_in ++ v ∷ [] }))
step-Asks p inc_dcd h = ground (arith, send_accept-adu (record p { adu = add_int p.adu (pos 1) }))
step-Asks p progress_tick h = unfold start_phase_one in ground arith
step-Asks p (trust l) h = unfold start_phase_one in ground arith

-- `adu` can go on by `f` slots.
abbrev Room : ℕ → SlotId → Type 0
Room f a = InRange a × (pos_part a + f < 2 ^ 63)

next_adu :
    (f : ℕ) (a b : SlotId)
    → Room (suc f) a
    → (b ≡ a) ⊎ (b ≡ add_int a (pos 1))
    → Room f b × (a ≤ℤ b)
next_adu f a b room (inl e) = ground arith
next_adu f a b room (inr e) = rw (e, add_int_lem a (pos 1) (fits a room)) (later a room)
  where
    fits : (a : SlotId) → Room (suc f) a → InRange (a +ℤ pos 1)
    fits a room = unfold ◌+ℤ◌ in ground arith

    later : (a : SlotId) → Room (suc f) a → Room f (a +ℤ pos 1) × (a ≤ℤ (a +ℤ pos 1))
    later a room = unfold ◌+ℤ◌ in ground arith

run-AskedUpTo :
    (p : Proposer) (sent : List Output) (es : List Event)
    → Room (length es) p.adu
    → AskedUpTo p.adu sent
    → {q : Proposer} {sent' : List Output} → run p sent es ≡ some (q, sent')
    → AskedUpTo q.adu sent'
unfolding run
run-AskedUpTo p sent [] room asked {q} {sent'} h =
    let same : (p, sent) ≡ (q, sent') = cc h in
    subst (λ (x : Proposer × List Output). AskedUpTo x.0.adu x.1) same asked
run-AskedUpTo p sent (e ∷ es) room asked {q} {sent'} h = elim (Option-cases (step p e)) [
  | inl x ↦ absurd (ground arith)
  | inr ((r, out), x) ↦
      let a = step-Asks p e x in
      let (room', le) = next_adu (length es) p.adu r.adu room a.adu in
      run-AskedUpTo r (out ++ sent) es room'
        (AskedUpTo-append r.adu out sent a.asked (AskedUpTo-mono p.adu r.adu sent le asked)) {q = q}
        {sent' = sent'} (ground arith)
]

-- While `adu` does not pass the largest `int`, it never falls, so that all prepares of a new
-- proposer ask from a slot that it has reached.
pub new-AskedUpTo :
    (id : ℤ) (n : ℕ) (adu leader : ℤ) (es : List Event) {p : Proposer} {sent : List Output}
    → InRange adu
    → pos_part adu + length es < 2 ^ 63
    → run (new_proposer id n adu leader) [] es ≡ some (p, sent)
    → AskedUpTo p.adu sent
new-AskedUpTo id n adu leader es range small h =
    run-AskedUpTo (new_proposer id n adu leader) [] es (unfold new_proposer in (range, small)) tt h
