-- ===== src/Paxos/Proposer/Sources.antt =====
-- The evidence that a run of the loop of lab6/multipaxos/proposer.go keeps.
use multi_paxos_work_in_prog.Common.{
  ℕ, zero, suc, ℤ, pos, Bool, List, [], ◌∷◌, int_eq, ◌++◌, Option, none, some, arith, ◌≡◌, ◌≢◌,
  refl, ◌⊎◌, Option-cases, inl, inr, All, get_elem?, replicate, subst, sym,
}
use multi_paxos_work_in_prog.Common.Int.{add_int}
use multi_paxos_work_in_prog.Common.GoMap.{lookup}
use multi_paxos_work_in_prog.Paxos.{Round, Accept, Promise}
use multi_paxos_work_in_prog.Paxos.Proposer.{
  Proposer, new_proposer, start_phase_one, after_promise, send_accept, handle_promise, take_promise,
  check_quorum, Event, promise_in, cval_in, inc_dcd, progress_tick, trust, Output, step, run,
}
use multi_paxos_work_in_prog.Paxos.Proposer.Frames.{
  Handled, ignored, panics, taken, handle_promise-Handled, step-Passed,
}
use multi_paxos_work_in_prog.Paxos.Proposer.Rounds.{
  prepares, prepares-append, step-Advances, OnTrack, step-OnTrack, new-OnTrack,
}
use multi_paxos_work_in_prog.Paxos.Proposer.Evidence.{
  Past, EvidenceOf, Source-mono, take_promise-Evidence,
}

-- `q` holds the promises and the merged reports of `p`.
record Leaves (p q : Proposer) : Type 0 where
  promises : q.promises ≡ p.promises
  slots : q.promise_slots ≡ p.promise_slots

send_accept-Leaves : (p : Proposer) → Leaves p (send_accept p).0
unfolding send_accept
send_accept-Leaves p = ground arith

after_promise-Leaves :
    (p : Proposer) (accs : List Accept) (b : Bool) → Leaves p (after_promise (p, accs, b)).0
unfolding after_promise send_accept
after_promise-Leaves p accs b = ground arith

check_quorum-Leaves : (p : Proposer) → Leaves p (check_quorum p).0
unfolding check_quorum
check_quorum-Leaves p = ground arith

replicate-none : (n j : ℕ) (r : Promise) → get_elem? (replicate n none) j ≡ some (some r) → ⊥
replicate-none zero j r h = cc
replicate-none (suc n) zero r h = cc
replicate-none (suc n) (suc j) r h = replicate-none n j r h

-- What an event other than a promise does to them.
abbrev Unheard : Proposer → Proposer → Type 0
Unheard p q = Leaves p q ⊎ ((q.promises ≡ replicate p.n none) × (q.promise_slots ≡ p.promise_slots))

step-Unheard :
    (p : Proposer) (e : Event) {q : Proposer} {out : List Output}
    → ((prm : Promise) → e ≢ promise_in prm)
    → step p e ≡ some (q, out)
    → Unheard p q
unfolding step start_phase_one
step-Unheard p (promise_in prm) other h = absurd (other prm refl)
step-Unheard p (cval_in v) other h =
    ground (arith, send_accept-Leaves (record p { requests_in = p.requests_in ++ v ∷ [] }))
step-Unheard p inc_dcd other h =
    ground (arith, send_accept-Leaves (record p { adu = add_int p.adu (pos 1) }))
step-Unheard p progress_tick other h = ground arith
step-Unheard p (trust l) other h = ground arith

Past-later :
    (i n : ℕ) (sent out : List Output) (r : Round) → Past i n sent r → Past i n (out ++ sent) r
Past-later i n sent out r (k, le, e) = (k, omega (arith, le, prepares-append out sent), e)

-- The loop is given the promises of the events only.
abbrev pub HeardIn : (Promise → Type 0) → Event → Type 0
HeardIn Heard (promise_in prm) = Heard prm
HeardIn Heard (cval_in v) = Unit {0}
HeardIn Heard inc_dcd = Unit {0}
HeardIn Heard progress_tick = Unit {0}
HeardIn Heard (trust l) = Unit {0}

module _ (Heard : Promise → Type 0) where
  Leaves-Evidence :
      {past : Round → Type 0} (p q : Proposer)
      → Leaves p q
      → EvidenceOf Heard past p
      → EvidenceOf Heard past q
  Leaves-Evidence p q l e = rw (l.promises, l.slots) e

  Unheard-Evidence :
      {past : Round → Type 0} (p q : Proposer)
      → Unheard p q
      → EvidenceOf Heard past p
      → EvidenceOf Heard past q
  Unheard-Evidence p q (inl l) e = Leaves-Evidence p q l e
  Unheard-Evidence p q (inr (empty, slots)) e =
      rw (empty, slots)
        (record { sourced = e.sourced; merged = λ j r h. absurd (replicate-none p.n j r h) })

  -- A promise that is taken was heard, for the round of the proposer.
  pub handle_promise-Evidence :
      (past : Round → Type 0) (p : Proposer) (prm : Promise)
      → EvidenceOf Heard past p
      → Heard prm
      → past p.crnd
      → {q : Proposer} {accs : List Accept} {b : Bool} → handle_promise p prm ≡ some (q, accs, b)
      → EvidenceOf Heard past q
  handle_promise-Evidence past p prm e heard now h = by_case (handle_promise-Handled p prm) h
    where
      by_case :
          {r : Option (Proposer × List Accept × Bool)}
          → Handled p prm r
          → {q : Proposer} {accs : List Accept} {b : Bool} → r ≡ some (q, accs, b)
          → EvidenceOf Heard past q
      by_case ignored {q} k = let same : p ≡ q = cc k in subst (EvidenceOf Heard past) same e
      by_case (panics x) k = absurd (cc k)
      by_case (taken o at rnd sync) {q} k =
          let same : (check_quorum (take_promise p prm o)).0 ≡ q = cc k in
          subst (EvidenceOf Heard past) same (
            Leaves-Evidence _ _ (check_quorum-Leaves (take_promise p prm o))
              (take_promise-Evidence Heard past p prm o e heard (subst past (sym rnd) now)))

  step-Evidence :
      (past : Round → Type 0) (p : Proposer) (ev : Event)
      → EvidenceOf Heard past p
      → HeardIn Heard ev
      → past p.crnd
      → {q : Proposer} {out : List Output} → step p ev ≡ some (q, out)
      → EvidenceOf Heard past q
  step-Evidence past p (promise_in prm) e heard now h =
      let r = step-Passed p prm h in
      subst (EvidenceOf Heard past) (sym r.state) (
        Leaves-Evidence _ _ (after_promise-Leaves r.mid r.accs r.output)
          (handle_promise-Evidence past p prm e heard now r.handled))
  step-Evidence past p (cval_in v) e heard now {q} h =
      Unheard-Evidence p q (step-Unheard p (cval_in v) (λ r x. cc x) h) e
  step-Evidence past p inc_dcd e heard now {q} h =
      Unheard-Evidence p q (step-Unheard p inc_dcd (λ r x. cc x) h) e
  step-Evidence past p progress_tick e heard now {q} h =
      Unheard-Evidence p q (step-Unheard p progress_tick (λ r x. cc x) h) e
  step-Evidence past p (trust l) e heard now {q} h =
      Unheard-Evidence p q (step-Unheard p (trust l) (λ r x. cc x) h) e

  later-Evidence :
      (i n : ℕ) (sent out : List Output) (p : Proposer)
      → EvidenceOf Heard (Past i n sent) p
      → EvidenceOf Heard (Past i n (out ++ sent)) p
  later-Evidence i n sent out p e = record {
    sourced = λ s q h.
        Source-mono Heard (Past i n sent) (Past i n (out ++ sent)) s q (Past-later i n sent out)
          (e.sourced s q h);
    merged = e.merged;
  }

  run-Evidence :
      (i n : ℕ) (p : Proposer) (sent : List Output) (es : List Event)
      → OnTrack i n p sent
      → EvidenceOf Heard (Past i n sent) p
      → All (HeardIn Heard) es
      → {q : Proposer} {sent' : List Output} → run p sent es ≡ some (q, sent')
      → EvidenceOf Heard (Past i n sent') q × OnTrack i n q sent'
  unfolding run
  run-Evidence i n p sent [] t e heard {q} {sent'} h =
      let same : (p, sent) ≡ (q, sent') = cc h in
      subst
        (λ (x : Proposer × List Output). EvidenceOf Heard (Past i n x.1) x.0 × OnTrack i n x.0 x.1)
        same (e, t)
  run-Evidence i n p sent (ev ∷ es) t e heard {q} {sent'} h = elim (Option-cases (step p ev)) [
    | inl x ↦ absurd (ground arith)
    | inr ((r, out), x) ↦
        run-Evidence i n r (out ++ sent) es (step-OnTrack i n p r sent out t (step-Advances p ev x))
          (later-Evidence i n sent out r
            (step-Evidence (Past i n sent) p ev e heard.0 (prepares sent, omega arith, t.crnd) x))
          heard.1 (ground arith)
  ]

  new-Evidence :
      (i n : ℕ) (adu leader : ℤ)
      → EvidenceOf Heard (Past i n []) (new_proposer (pos i) n adu leader)
  unfolding new_proposer lookup
  new-Evidence i n adu leader = record {
    sourced = λ s q x. absurd (cc x);
    merged = λ j r x. absurd (replicate-none n j r x);
  }

  -- A new proposer that has handled the events and completes Phase One.
  pub phase_one-Evidence :
      (i n : ℕ) (adu leader : ℤ) (es : List Event) {p : Proposer} {sent : List Output}
      (prm : Promise) {q : Proposer} {accs : List Accept} {b : Bool}
      → All (HeardIn Heard) es
      → Heard prm
      → run (new_proposer (pos i) n adu leader) [] es ≡ some (p, sent)
      → handle_promise p prm ≡ some (q, accs, b)
      → EvidenceOf Heard (Past i n sent) q
  phase_one-Evidence i n adu leader es {p} {sent} prm all heard h k =
      let (e, t) =
        run-Evidence i n (new_proposer (pos i) n adu leader) [] es (new-OnTrack i n adu leader)
          (new-Evidence i n adu leader) all h in
      handle_promise-Evidence (Past i n sent) p prm e heard (prepares sent, omega arith, t.crnd) k
