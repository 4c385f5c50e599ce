-- ===== src/Paxos/Proposer/Evidence.antt =====
-- Where the merged reports of lab6/multipaxos/proposer.go come from, over a run.
use multi_paxos_work_in_prog.Common.{
  ℕ, ◌≤◌, ◌≤ℤ◌, ℤ, pos, pos_part, List, [], ◌∷◌, int_eq, Option, none, some, arith, ◌≡◌, refl,
  Bool-cases, inl, inr, get_elem?, set, subst, sym, ltb_ℤ,
}
use multi_paxos_work_in_prog.Common.GoMap.{GoMap, lookup}
use multi_paxos_work_in_prog.Paxos.{SlotId, Round, Promise, PromiseSlot, reported}
use multi_paxos_work_in_prog.Paxos.Proposer.{
  Proposer, take_promise, store_promise, Output, update_promise_slots,
}
use multi_paxos_work_in_prog.Paxos.Proposer.Frames.{update-Merges}
use multi_paxos_work_in_prog.Paxos.Proposer.Quorum.{get_elem?-set}
use multi_paxos_work_in_prog.Paxos.Proposer.Reports.{
  ReportedAs, ReportsUpTo, Unreported, Best, update-Best,
}
use multi_paxos_work_in_prog.Paxos.Proposer.Rounds.{prepares, advance}

-- What is kept for the slot has a round that is no lower than the report's.
abbrev pub Covers : Option PromiseSlot → PromiseSlot → Type 0
Covers o x = (q : PromiseSlot) × (o ≡ some q) × (x.vrnd ≤ℤ q.vrnd)

ReportsUpTo-at :
    (s : SlotId) (r : Round) (x : PromiseSlot) (l : List PromiseSlot)
    → ReportsUpTo s r l
    → ReportedAs s x l
    → x.vrnd ≤ℤ r
ReportsUpTo-at s r x [] u h = absurd h
ReportsUpTo-at s r x (y ∷ l) u (inl (e, same)) =
    subst (λ (z : PromiseSlot). z.vrnd ≤ℤ r) same (u.0 e)
ReportsUpTo-at s r x (y ∷ l) u (inr h) = ReportsUpTo-at s r x l u.1 h

Best-Covers :
    (s : SlotId) (old : Option PromiseSlot) (x : PromiseSlot) (l : List PromiseSlot)
    (new : Option PromiseSlot)
    → Best s old l new
    → ReportedAs s x l
    → Covers new x
Best-Covers s old x l none b h = absurd (unreported l b.1 h)
  where
    unreported : (l : List PromiseSlot) → Unreported s l → ReportedAs s x l → ⊥
    unreported [] u h = h
    unreported (y ∷ l) u (inl (e, same)) = u.0 e
    unreported (y ∷ l) u (inr h) = unreported l u.1 h
Best-Covers s old x l (some q) b h = (q, refl, ReportsUpTo-at s q.vrnd x l b.1 h)

Best-keeps :
    (s : SlotId) (old : Option PromiseSlot) (x : PromiseSlot) (l : List PromiseSlot)
    (new : Option PromiseSlot)
    → Best s old l new
    → Covers old x
    → Covers new x
Best-keeps s none x l new b (q, e, le) = absurd (cc e)
Best-keeps s (some y) x l none b (q, e, le) = absurd (cc (b.0))
Best-keeps s (some y) x l (some z) b (q, e, le) =
    let same : y ≡ q = cc e in
    (z, refl, omega (arith, le, subst (λ (w : PromiseSlot). w.vrnd ≤ℤ z.vrnd) same b.2))

-- The rounds that the proposer has had until now.
abbrev pub Past : ℕ → ℕ → List Output → Round → Type 0
Past i n sent r = (k : ℕ) × (k ≤ prepares sent) × (r ≡ advance k n (pos i))

module _ (Heard : Promise → Type 0) where
  -- The report comes from a promise of a round that the proposer has had.
  pub record Source (past : Round → Type 0) (s : SlotId) (q : PromiseSlot) : Type 0 where
    pub promise : Promise
    pub heard : Heard promise
    pub report : ReportedAs s q (reported promise.slots)
    pub round : past promise.rnd

  -- Every entry has a source, and covers what the promises that are held report.
  pub record Evidence (past : Round → Type 0) (promises : List (Option Promise))
      (slots : GoMap ℤ PromiseSlot) : Type 0 where
    pub sourced : (s : SlotId) (q : PromiseSlot) → lookup s slots ≡ some q → Source past s q
    pub merged :
        (j : ℕ) (r : Promise)
        → get_elem? promises j ≡ some (some r)
        → Heard r
          × ((s : SlotId) (x : PromiseSlot)
              → ReportedAs s x (reported r.slots)
              → Covers (lookup s slots) x)

  pub Source-mono :
      (past later : Round → Type 0) (s : SlotId) (q : PromiseSlot)
      → ((r : Round) → past r → later r)
      → Source past s q
      → Source later s q
  Source-mono past later s q f h = record {
    promise = h.promise;
    heard = h.heard;
    report = h.report;
    round = f h.promise.rnd h.round;
  }

  store-Evidence :
      (past : Round → Type 0) (p : Proposer) (prm : Promise) (i : ℕ)
      (promises : List (Option Promise))
      → Evidence past promises p.promise_slots
      → Heard prm
      → past prm.rnd
      → Evidence past
          (set promises i (some prm))
          (update_promise_slots p (reported prm.slots)).promise_slots
  store-Evidence past p prm i promises e heard round = record {
    sourced =
        λ s q h. sourced_new s q (subst (λ o. Best s (lookup s p.promise_slots) l o) h (best s));
    merged = λ j r h. elim (get_elem?-set promises i j (some prm) (some r) h) [
      | inl (_, same) ↦
          let same' : r ≡ prm = cc same in
          subst
            (λ (z : Promise).
              Heard z
              × ((s : SlotId) (x : PromiseSlot)
                  → ReportedAs s x (reported z.slots)
                  → Covers (lookup s new) x))
            (sym same')
            (heard, λ s x k. Best-Covers s (lookup s p.promise_slots) x l (lookup s new) (best s) k)
      | inr old ↦
          let (a, b) = e.merged j r old in
          (
            a,
            λ s x k. Best-keeps s (lookup s p.promise_slots) x l (lookup s new) (best s) (b s x k),
          )
    ];
  }
    where
      l : List PromiseSlot
      l = reported prm.slots

      new : GoMap ℤ PromiseSlot
      new = (update_promise_slots p l).promise_slots

      best : (s : SlotId) → Best s (lookup s p.promise_slots) l (lookup s new)
      best s = update-Best p l s

      sourced_new :
          (s : SlotId) (q : PromiseSlot)
          → Best s (lookup s p.promise_slots) l (some q)
          → Source past s q
      sourced_new s q b = elim b.0 [
        | inl old ↦ e.sourced s q old
        | inr here ↦ record { promise = prm; heard = heard; report = here; round = round }
      ]

  abbrev pub EvidenceOf : (Round → Type 0) → Proposer → Type 0
  EvidenceOf past p = Evidence past p.promises p.promise_slots

  store_promise-Evidence :
      (past : Round → Type 0) (p : Proposer) (prm : Promise)
      → EvidenceOf past p
      → Heard prm
      → past prm.rnd
      → EvidenceOf past (store_promise p prm)
  unfolding store_promise
  store_promise-Evidence past p prm e heard round =
      let marked = record p { promises = set p.promises (pos_part prm.from) (some prm) } in
      rw (update-Merges marked (reported prm.slots)).promises
        (store-Evidence past marked prm (pos_part prm.from) p.promises e heard round)

  pub take_promise-Evidence :
      (past : Round → Type 0) (p : Proposer) (prm : Promise) (o : Option Promise)
      → EvidenceOf past p
      → Heard prm
      → past prm.rnd
      → EvidenceOf past (take_promise p prm o)
  unfolding take_promise
  take_promise-Evidence past p prm none e heard round =
      let stored = store_promise-Evidence past p prm e heard round in
      record { sourced = stored.sourced; merged = stored.merged }
  take_promise-Evidence past p prm (some prev) e heard round =
      elim (Bool-cases (ltb_ℤ prev.rnd prm.rnd)) [
        | inl newer ↦ rw newer (store_promise-Evidence past p prm e heard round)
        | inr old ↦ rw old e
      ]
