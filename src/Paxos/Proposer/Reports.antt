-- ===== src/Paxos/Proposer/Reports.antt =====
-- How lab6/multipaxos/proposer.go merges the reports of promises (`update_promise_slots`).
use multi_paxos_work_in_prog.Common.{
  ◌≤ℤ◌, ltb_ℤ, List, [], ◌∷◌, Option, none, some, arith, ◌≡◌, ◌≢◌, refl, ◌⊎◌, All, int_eq,
  int_beq_iff, ◌==◌, if◌then◌else◌, subst,
}
use multi_paxos_work_in_prog.Common.GoMap.{lookup, lookup-insert}
use multi_paxos_work_in_prog.Paxos.{SlotId, Round, PromiseSlot}
use multi_paxos_work_in_prog.Paxos.Proposer.{Proposer, update_promise_slots, merge_slot, raise_max}

-- `q` is one of the reports, for the slot `s`.
abbrev pub ReportedAs : SlotId → PromiseSlot → List PromiseSlot → Type 0
ReportedAs s q [] = ⊥
ReportedAs s q (x ∷ l) = ((x.id ≡ s) × (x ≡ q)) ⊎ ReportedAs s q l

-- The reports for the slot `s` have rounds up to `r`.
abbrev pub ReportsUpTo : SlotId → Round → List PromiseSlot → Type 0
ReportsUpTo s r [] = Unit {0}
ReportsUpTo s r (x ∷ l) = (x.id ≡ s → x.vrnd ≤ℤ r) × ReportsUpTo s r l

abbrev pub Unreported : SlotId → List PromiseSlot → Type 0
Unreported s [] = Unit {0}
Unreported s (x ∷ l) = (x.id ≢ s) × Unreported s l

abbrev pub OldUpTo : Option PromiseSlot → Round → Type 0
OldUpTo none r = Unit {0}
OldUpTo (some x) r = x.vrnd ≤ℤ r

-- `new` is the report of the highest round for `s` among the old one and those of `l`.
abbrev pub Best : SlotId → Option PromiseSlot → List PromiseSlot → Option PromiseSlot → Type 0
Best s old l none = (old ≡ none) × Unreported s l
Best s old l (some q) =
    ((old ≡ some q) ⊎ ReportedAs s q l) × ReportsUpTo s q.vrnd l × OldUpTo old q.vrnd

-- what one report makes of the entry for its slot
abbrev better : Option PromiseSlot → PromiseSlot → Option PromiseSlot
better none x = some x
better (some old) x = if ltb_ℤ old.vrnd x.vrnd then some x else some old

merge-lookup :
    (p : Proposer) (x : PromiseSlot) (s : SlotId)
    → lookup s (raise_max (merge_slot p x) x.id).promise_slots
      ≡ (if x.id == s then better (lookup s p.promise_slots) x else lookup s p.promise_slots)
unfolding merge_slot raise_max
merge-lookup p x s = ground (arith, int_beq_iff x.id s, lookup-insert x.id s x p.promise_slots)

step-Best :
    (s : SlotId) (o : Option PromiseSlot) (x : PromiseSlot) (l : List PromiseSlot)
    (new : Option PromiseSlot)
    → Best s (if x.id == s then better o x else o) l new
    → Best s o (x ∷ l) new
step-Best s none x l none b = ground (arith, int_beq_iff x.id s)
step-Best s none x l (some q) b = ground (arith, int_beq_iff x.id s)
step-Best s (some o) x l none b = ground (arith, int_beq_iff x.id s)
step-Best s (some o) x l (some q) b = ground (arith, int_beq_iff x.id s)

-- After merging the reports of a promise, the entry for each slot is the report of the highest
-- round for it among the old entry and the promise's, and there is none exactly where both have
-- none.
pub update-Best :
    (p : Proposer) (l : List PromiseSlot) (s : SlotId)
    → Best s (lookup s p.promise_slots) l (lookup s (update_promise_slots p l).promise_slots)
unfolding update_promise_slots
update-Best p [] s = empty (lookup s p.promise_slots)
  where
    empty : (o : Option PromiseSlot) → Best s o [] o
    empty none = (refl, tt)
    empty (some q) = ground arith
update-Best p (x ∷ l) s =
    let q = raise_max (merge_slot p x) x.id in
    let new = lookup s (update_promise_slots q l).promise_slots in
    step-Best s (lookup s p.promise_slots) x l new
      (subst (λ o. Best s o l new) (merge-lookup p x s) (update-Best q l s))

merge-max_slot :
    (p : Proposer) (x : PromiseSlot)
    → (x.id ≤ℤ (raise_max (merge_slot p x) x.id).max_slot)
      × (p.max_slot ≤ℤ (raise_max (merge_slot p x) x.id).max_slot)
unfolding merge_slot raise_max
merge-max_slot p x = ground arith

-- No merged report lies above `max_slot`, and `max_slot` never falls.
update-max_slot :
    (p : Proposer) (l : List PromiseSlot)
    → All (λ x. x.id ≤ℤ (update_promise_slots p l).max_slot) l
      × (p.max_slot ≤ℤ (update_promise_slots p l).max_slot)
unfolding update_promise_slots
update-max_slot p [] = (tt, omega arith)
update-max_slot p (x ∷ l) =
    let (here, kept) = merge-max_slot p x in
    let (rest, later) = update-max_slot (raise_max (merge_slot p x) x.id) l in
    ((omega arith, rest), omega arith)
