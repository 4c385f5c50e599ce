-- ===== src/Paxos/Proposer/Filling.antt =====
-- The accepts with which lab6/multipaxos/proposer.go ends Phase One, by its state at that time.
use multi_paxos_work_in_prog.Common.{
  ℕ, zero, suc, ℤ, pos, pos_part, Bool, true, List, [], Option, some, arith, ◌≡◌, refl, subst,
  ltb_ℤ, leb_ℤ, leb, ◌<ℤ◌, All, All-map, Bool-cases, int_eq, inl, inr, ◌-ℤ◌, length,
}
use multi_paxos_work_in_prog.Common.Int.{add_int}
use multi_paxos_work_in_prog.Common.GoMap.{lookup}
use multi_paxos_work_in_prog.Paxos.{Promise, Accept}
use multi_paxos_work_in_prog.Paxos.Proposer.{
  Proposer, chosen_value, make_accept, accepts_from, create_accept_message, take_promise,
  check_quorum, handle_promise,
}
use multi_paxos_work_in_prog.Paxos.Proposer.Frames.{
  Handled, ignored, panics, taken, handle_promise-Handled,
}

-- An accept for an open slot, in the round of the proposer, with the value of the merged report.
pub record Fills (p : Proposer) (a : Accept) : Type 0 where
  pub open_slot : p.adu <ℤ a.slot
  pub round : a.rnd ≡ p.crnd
  pub value : a.val ≡ chosen_value (lookup a.slot p.promise_slots)

accepts_from-Fills : (f : ℕ) (p : Proposer) (s : ℤ) → All (Fills p) (accepts_from f p s)
unfolding accepts_from make_accept
accepts_from-Fills zero p s = tt
accepts_from-Fills (suc f) p s =
    let rest = accepts_from-Fills f p (add_int s (pos 1)) in
    elim (Bool-cases (leb_ℤ s p.max_slot)) [
      | inr past ↦ rw past tt
      | inl within ↦ elim (Bool-cases (ltb_ℤ p.adu s)) [
        | inr done ↦ rw (within, done) rest
        | inl fresh ↦
            rw (within, fresh)
              (record { open_slot = ground arith; round = refl; value = refl }, rest)
      ]
    ]

check_quorum-Fills : (p : Proposer) → All (Fills (check_quorum p).0) (check_quorum p).1
unfolding check_quorum create_accept_message
check_quorum-Fills p = elim (Bool-cases (leb p.quorum p.promise_count)) [
  | inr few ↦ rw few tt
  | inl enough ↦ elim (Bool-cases (leb 1 (length p.promise_slots))) [
    | inr nothing ↦ rw (enough, nothing) tt
    | inl some_slots ↦
        rw (enough, some_slots)
          (All-map (Fills p) (Fills (record p { sync_promise = true }))
            (λ a h. record { open_slot = h.open_slot; round = h.round; value = h.value })
            (accepts_from (suc (suc (pos_part (p.max_slot -ℤ p.min_slot)))) p p.min_slot)
            (accepts_from-Fills (suc (suc (pos_part (p.max_slot -ℤ p.min_slot)))) p p.min_slot))
  ]
]

-- Every accept that Phase One makes fills a slot.
pub handle_promise-Fills :
    (p : Proposer) (prm : Promise) {q : Proposer} {accs : List Accept} {b : Bool}
    → handle_promise p prm ≡ some (q, accs, b)
    → All (Fills q) accs
handle_promise-Fills p prm h = by_case (handle_promise-Handled p prm) h
  where
    by_case :
        {r : Option (Proposer × List Accept × Bool)}
        → Handled p prm r
        → {q : Proposer} {accs : List Accept} {b : Bool} → r ≡ some (q, accs, b)
        → All (Fills q) accs
    by_case ignored {q} {accs} k = let same : [] ≡ accs = cc k in subst (All (Fills q)) same tt
    by_case (panics x) k = absurd (cc k)
    by_case (taken o at rnd sync) {q} {accs} {b} k =
        let same : check_quorum (take_promise p prm o) ≡ (q, accs, b) = cc k in
        subst (λ (x : Proposer × List Accept × Bool). All (Fills x.0) x.1) same
          (check_quorum-Fills (take_promise p prm o))
