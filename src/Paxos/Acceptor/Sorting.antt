-- ===== src/Paxos/Acceptor/Sorting.antt =====
-- The sort of a promise's slots (lab6/multipaxos/acceptor.go): ascending, with nothing lost, and the
-- same whatever order the map was visited in.
use multi_paxos_work_in_prog.Common.{
  ℤ, ◌<ℤ◌, int_beq_iff, int_eq, ◌==◌, if◌then◌else◌, List, [], ◌∷◌, none, some, All, leb_ℤ, ◌⊎◌,
  arith, ◌≡◌, refl, map, ◌∙◌,
}
use multi_paxos_work_in_prog.Common.GoMap.{GoMap, lookup, Distinct, lookup-head}
use multi_paxos_work_in_prog.Paxos.{SlotId, PromiseSlot}
use multi_paxos_work_in_prog.Paxos.Acceptor.{insert_slot, sort_slots, slots_from}

-- the report for a slot
abbrev pub by_id : List PromiseSlot → GoMap SlotId PromiseSlot
by_id = map (λ p. (p.id, p))

abbrev pub Ascending : List PromiseSlot → Type 0
Ascending [] = Unit {0}
Ascending (p ∷ l) = All (λ q. p.id <ℤ q.id) l × Ascending l

above-none :
    (s : SlotId) (l : List PromiseSlot) → All (λ q. s <ℤ q.id) l → lookup s (by_id l) ≡ none
unfolding lookup
above-none s [] a = refl
above-none s (q ∷ l) a = ground (arith, int_beq_iff q.id s, above-none s l a.1)

All-above :
    (p q : PromiseSlot) (l : List PromiseSlot)
    → p.id <ℤ q.id
    → All (λ r. q.id <ℤ r.id) l
    → All (λ r. p.id <ℤ r.id) l
All-above p q [] h a = tt
All-above p q (r ∷ l) h a = (omega arith, All-above p q l h a.1)

All-insert :
    (p q : PromiseSlot) (l : List PromiseSlot)
    → q.id <ℤ p.id
    → All (λ r. q.id <ℤ r.id) l
    → All (λ r. q.id <ℤ r.id) (insert_slot p l)
unfolding insert_slot
All-insert p q [] h a = (h, tt)
All-insert p q (r ∷ l) h a = ground (arith, All-insert p q l h a.1)

insert_slot-Ascending :
    (p : PromiseSlot) (l : List PromiseSlot)
    → lookup p.id (by_id l) ≡ none
    → Ascending l
    → Ascending (insert_slot p l)
unfolding insert_slot lookup
insert_slot-Ascending p [] h a = (tt, tt)
insert_slot-Ascending p (q ∷ l) h a =
    ground
      (arith, int_beq_iff q.id p.id, All-above p q l, All-insert p q l, insert_slot-Ascending p l)

lookup-insert_slot :
    (p : PromiseSlot) (l : List PromiseSlot) (s : SlotId)
    → lookup p.id (by_id l) ≡ none
    → lookup s (by_id (insert_slot p l)) ≡ (if p.id == s then some p else lookup s (by_id l))
unfolding insert_slot lookup
lookup-insert_slot p [] s h = refl
lookup-insert_slot p (q ∷ l) s h =
    ground (
      arith,
      int_beq_iff q.id p.id,
      int_beq_iff q.id s,
      int_beq_iff p.id s,
      lookup-insert_slot p l s,
    )

pub sort_slots-lookup :
    (l : List PromiseSlot)
    → Distinct (by_id l)
    → (s : SlotId) → lookup s (by_id (sort_slots l)) ≡ lookup s (by_id l)
unfolding sort_slots lookup
sort_slots-lookup [] d s = refl
sort_slots-lookup (p ∷ l) d s = ground (
  arith,
  lookup-insert_slot p (sort_slots l) s,
  sort_slots-lookup l d.1 s,
  sort_slots-lookup l d.1 p.id,
)

pub sort_slots-Ascending : (l : List PromiseSlot) → Distinct (by_id l) → Ascending (sort_slots l)
unfolding sort_slots
sort_slots-Ascending [] d = tt
sort_slots-Ascending (p ∷ l) d =
    insert_slot-Ascending p (sort_slots l) (sort_slots-lookup l d.1 p.id ∙ d.0)
      (sort_slots-Ascending l d.1)

three_way : (a b : ℤ) → (a <ℤ b) ⊎ (b <ℤ a) ⊎ (a ≡ b)
three_way a b = ground arith

abbrev pub SameReports : List PromiseSlot → List PromiseSlot → Type 0
SameReports l m = (s : SlotId) → lookup s (by_id l) ≡ lookup s (by_id m)

same_head :
    (p q : PromiseSlot) (l m : List PromiseSlot)
    → Ascending (p ∷ l)
    → Ascending (q ∷ m)
    → SameReports (p ∷ l) (q ∷ m)
    → p ≡ q
unfolding lookup
same_head p q l m al am h = ground (
  arith,
  h p.id,
  h q.id,
  int_beq_iff p.id p.id,
  int_beq_iff q.id q.id,
  int_beq_iff p.id q.id,
  int_beq_iff q.id p.id,
  above-none p.id m,
  All-above p q m,
  above-none q.id l,
  All-above q p l,
  three_way p.id q.id,
)

same_tail :
    (p q : PromiseSlot) (l m : List PromiseSlot)
    → Ascending (p ∷ l)
    → Ascending (q ∷ m)
    → p ≡ q
    → SameReports (p ∷ l) (q ∷ m)
    → SameReports l m
unfolding lookup
same_tail p q l m al am e h s =
    ground
      (arith, h s, int_beq_iff p.id s, int_beq_iff q.id s, above-none p.id l, above-none q.id m)

-- Ascending lists with the same reports are the same list.
pub Ascending-unique :
    (l m : List PromiseSlot) → Ascending l → Ascending m → SameReports l m → l ≡ m
unfolding lookup
Ascending-unique [] [] al am h = refl
Ascending-unique [] (q ∷ m) al am h = cc (h q.id, lookup-head q.id q (by_id m))
Ascending-unique (p ∷ l) [] al am h = cc (h p.id, lookup-head p.id p (by_id l))
Ascending-unique (p ∷ l) (q ∷ m) al am h =
    let e = same_head p q l m al am h in
    cc (e, Ascending-unique l m al.1 am.1 (same_tail p q l m al am e h))

-- Every report stands under its own slot.
abbrev pub Keyed : GoMap SlotId PromiseSlot → Type 0
Keyed = All (λ e. e.1.id ≡ e.0)

pub slots_from-lookup :
    (slot s : SlotId) (l : GoMap SlotId PromiseSlot)
    → Keyed l
    → Distinct l
    → lookup s (by_id (slots_from slot l)) ≡ (if leb_ℤ slot s then lookup s l else none)
unfolding slots_from lookup
slots_from-lookup slot s [] k d = ground arith
slots_from-lookup slot s ((i, p) ∷ l) k d =
    ground (arith, int_beq_iff i s, int_beq_iff p.id s, slots_from-lookup slot s l k.1 d.1)

pub slots_from-Distinct :
    (slot : SlotId) (l : GoMap SlotId PromiseSlot)
    → Keyed l
    → Distinct l
    → Distinct (by_id (slots_from slot l))
unfolding slots_from
slots_from-Distinct slot [] k d = tt
slots_from-Distinct slot ((i, p) ∷ l) k d =
    ground (arith, slots_from-lookup slot p.id l k.1 d.1, slots_from-Distinct slot l k.1 d.1)
