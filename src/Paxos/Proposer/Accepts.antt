-- ===== src/Paxos/Proposer/Accepts.antt =====
-- The accepts that Phase One of lab6/multipaxos/proposer.go generates.
use multi_paxos_work_in_prog.Common.{
  ℕ, zero, suc, ◌+◌, ◌<◌, ◌^◌, ℤ, pos, pos_part, neg_part, ◌+ℤ◌, ◌-ℤ◌, ◌≤ℤ◌, ◌<ℤ◌, ltb_ℤ, leb_ℤ,
  true, false, ◌&&◌, List, [], ◌∷◌, Option, none, some, arith, ◌≡◌, refl, ◌∙◌, map, All, int_eq,
  int_beq_iff, eq_of_parts, ◌⊎◌, inl, inr, if◌then◌else◌,
}
use multi_paxos_work_in_prog.Common.Int.{add_int, add_int_lem, InRange, +ℤ_parts}
use multi_paxos_work_in_prog.Common.GoMap.{GoMap, lookup, insert}
use multi_paxos_work_in_prog.Paxos.{SlotId, Accept, noop_value, PromiseSlot}
use multi_paxos_work_in_prog.Paxos.Proposer.{
  Proposer, make_accept, accepts_from, create_accept_message, update_promise_slots, merge_slot,
  raise_max,
}

abbrev pub by_slot : List Accept → GoMap SlotId Accept
by_slot = map (λ a. (a.slot, a))

abbrev pub AscendingSlots : List Accept → Type 0
AscendingSlots [] = Unit {0}
AscendingSlots (a ∷ l) = All (λ b. a.slot <ℤ b.slot) l × AscendingSlots l

-- The bounds of the loop are values of an `int`, and the upper one is not the largest.
abbrev pub LoopRange : ℤ → ℤ → Type 0
LoopRange s m = InRange s × InRange m × (pos_part m + 1 < 2 ^ 63)

-- `f` rounds lead from `s` past `m`.
abbrev pub Enough : ℕ → ℤ → ℤ → Type 0
Enough f s m = pos_part m + neg_part s < pos_part s + neg_part m + f

next_slot_lem : (s m : ℤ) → LoopRange s m → s ≤ℤ m → add_int s (pos 1) ≡ s +ℤ pos 1
next_slot_lem s m r h = add_int_lem s (pos 1) (fits s m r h)
  where
    fits : (s m : ℤ) → LoopRange s m → s ≤ℤ m → InRange (s +ℤ pos 1)
    fits s m r h = unfold ◌+ℤ◌ in ground arith

next_range : (s m : ℤ) → LoopRange s m → s ≤ℤ m → LoopRange (s +ℤ pos 1) m
unfolding ◌+ℤ◌
next_range s m r h = ground arith

-- What the loop makes for a slot.
abbrev expected : Proposer → ℤ → SlotId → Option Accept
expected p s t =
    if leb_ℤ s t && leb_ℤ t p.max_slot && ltb_ℤ p.adu t then some (make_accept p t) else none

leb_cases : (a b : ℤ) → ((a ≤ℤ b) × (leb_ℤ a b ≡ true)) ⊎ ((b <ℤ a) × (leb_ℤ a b ≡ false))
leb_cases a b = ground arith

accepts_from-lookup :
    (f : ℕ) (p : Proposer) (s t : ℤ)
    → LoopRange s p.max_slot
    → Enough f s p.max_slot
    → lookup t (by_slot (accepts_from f p s)) ≡ expected p s t
unfolding accepts_from lookup
accepts_from-lookup zero p s t r e = ground arith
accepts_from-lookup (suc f) p s t r e = elim (leb_cases s p.max_slot) [
  | inr (over, b) ↦ ground arith
  | inl (here, b) ↦ rw (next_slot_lem s p.max_slot r here) (
      ground (
        arith,
        int_beq_iff s t,
        +ℤ_parts s (pos 1),
        accepts_from-lookup f p (s +ℤ pos 1) t (next_range s p.max_slot r here)
            (omega (arith, +ℤ_parts s (pos 1))),
      ))
]

slots_above :
    (f : ℕ) (p : Proposer) (s b : ℤ)
    → LoopRange s p.max_slot
    → b <ℤ s
    → All (λ a. b <ℤ a.slot) (accepts_from f p s)
unfolding accepts_from
slots_above zero p s b r h = tt
slots_above (suc f) p s b r h = elim (leb_cases s p.max_slot) [
  | inr (over, e) ↦ ground arith
  | inl (here, e) ↦
      rw (e, next_slot_lem s p.max_slot r here)
        (ground (
          arith,
          slots_above f p (s +ℤ pos 1) b (next_range s p.max_slot r here)
              (omega (arith, +ℤ_parts s (pos 1))),
        ))
]

accepts_from-Ascending :
    (f : ℕ) (p : Proposer) (s : ℤ) → LoopRange s p.max_slot → AscendingSlots (accepts_from f p s)
unfolding accepts_from
accepts_from-Ascending zero p s r = tt
accepts_from-Ascending (suc f) p s r = elim (leb_cases s p.max_slot) [
  | inr (over, e) ↦ ground arith
  | inl (here, e) ↦
      rw (e, next_slot_lem s p.max_slot r here)
        (ground (
          arith,
          accepts_from-Ascending f p (s +ℤ pos 1) (next_range s p.max_slot r here),
          slots_above f p (s +ℤ pos 1) s (next_range s p.max_slot r here)
              (omega (arith, +ℤ_parts s (pos 1))),
        ))
]

accepts_from-fuel :
    (f g : ℕ) (p : Proposer) (s : ℤ)
    → LoopRange s p.max_slot
    → Enough f s p.max_slot
    → Enough g s p.max_slot
    → accepts_from f p s ≡ accepts_from g p s
unfolding accepts_from
accepts_from-fuel zero zero p s r e k = refl
accepts_from-fuel zero (suc g) p s r e k = ground arith
accepts_from-fuel (suc f) zero p s r e k = ground arith
accepts_from-fuel (suc f) (suc g) p s r e k = elim (leb_cases s p.max_slot) [
  | inr (over, b) ↦ ground arith
  | inl (here, b) ↦ rw (
    b,
    next_slot_lem s p.max_slot r here,
    accepts_from-fuel f g p (s +ℤ pos 1) (next_range s p.max_slot r here)
        (omega (arith, +ℤ_parts s (pos 1))) (omega (arith, +ℤ_parts s (pos 1))),
  )
]

Enough-rounds : (s m : ℤ) → Enough (suc (suc (pos_part (m -ℤ s)))) s m
unfolding ◌-ℤ◌
Enough-rounds s m = ground arith

-- The loop ends by its own test: no larger number of rounds gives another list, when the upper
-- bound is not the largest `int`.
pub create_accept_terminates :
    (p : Proposer) (f : ℕ)
    → LoopRange p.min_slot p.max_slot
    → Enough f p.min_slot p.max_slot
    → accepts_from f p p.min_slot ≡ create_accept_message p
unfolding create_accept_message
create_accept_terminates p f r e =
    accepts_from-fuel f _ p p.min_slot r e (Enough-rounds p.min_slot p.max_slot)

-- If the bounds are `int`s and `max_slot` is not the largest one, the accepts come in ascending
-- order of their slots, and there is exactly one for each slot from `min_slot` to `max_slot` that
-- is above `adu`, in the current round and from this proposer: with the value of the merged report
-- for that slot, or with a no-op where there is none.
pub create_accept_covers :
    (p : Proposer)
    → LoopRange p.min_slot p.max_slot
    → AscendingSlots (create_accept_message p)
      × ((t : SlotId)
          → lookup t (by_slot (create_accept_message p)) ≡ (
              if leb_ℤ p.min_slot t && leb_ℤ t p.max_slot && ltb_ℤ p.adu t
              then some (record {
                from = p.id;
                slot = t;
                rnd = p.crnd;
                val = elim (lookup t p.promise_slots) [ none ↦ noop_value | some q ↦ q.vval ];
              })
              else none))
unfolding create_accept_message
create_accept_covers p r = (
  accepts_from-Ascending (suc (suc (pos_part (p.max_slot -ℤ p.min_slot)))) p p.min_slot r,
  λ t.
      accepts_from-lookup (suc (suc (pos_part (p.max_slot -ℤ p.min_slot)))) p p.min_slot t r
        (Enough-rounds p.min_slot p.max_slot)
      ∙ same t,
)
  where
    same :
        (t : SlotId)
        → expected p p.min_slot t ≡ (
            if leb_ℤ p.min_slot t && leb_ℤ t p.max_slot && ltb_ℤ p.adu t
            then some (record {
              from = p.id;
              slot = t;
              rnd = p.crnd;
              val = elim (lookup t p.promise_slots) [ none ↦ noop_value | some q ↦ q.vval ];
            })
            else none)
    same t = unfold make_accept in ground arith

record Dropped (p q : Proposer) (a b : PromiseSlot) : Type 0 where
  slots : q.promise_slots ≡ (a.id, a) ∷ (b.id, b) ∷ []
  low : q.min_slot ≡ a.id
  high : q.max_slot ≡ a.id
  adu : q.adu ≡ p.adu

drop-Dropped :
    (p : Proposer) (a b : PromiseSlot)
    → p.promise_slots ≡ []
    → p.max_slot ≤ℤ a.id
    → b.id <ℤ a.id
    → Dropped p (update_promise_slots (update_promise_slots p (a ∷ [])) (b ∷ [])) a b
unfolding update_promise_slots merge_slot raise_max lookup insert
drop-Dropped p a b empty top low =
    ground (arith, int_beq_iff a.id b.id, eq_of_parts p.max_slot a.id)

LoopRange-at :
    (q : Proposer) (m : ℤ)
    → q.min_slot ≡ m
    → q.max_slot ≡ m
    → LoopRange m m
    → LoopRange q.min_slot q.max_slot
LoopRange-at q m e k r = ground arith

Dropped-absent :
    (p q : Proposer) (a b : PromiseSlot)
    → Dropped p q a b
    → LoopRange a.id a.id
    → b.id <ℤ a.id
    → (lookup b.id q.promise_slots ≡ some b)
      × (lookup b.id (by_slot (create_accept_message q)) ≡ none)
unfolding lookup
Dropped-absent p q a b d r low = (
  ground (arith, int_beq_iff a.id b.id, int_beq_iff b.id b.id),
  (create_accept_covers q (LoopRange-at q a.id d.low d.high r)).1 b.id ∙ ground arith,
)

-- A fresh proposer that hears of a slot `a`, and later of a lower slot `b` above `adu` in which a
-- value may have been chosen, keeps the report for `b` and makes no accept for it.
pub low_report_dropped :
    (p : Proposer) (a b : PromiseSlot)
    → p.promise_slots ≡ []
    → p.max_slot ≤ℤ a.id
    → LoopRange a.id a.id
    → b.id <ℤ a.id
    → p.adu <ℤ b.id
    → let q = update_promise_slots (update_promise_slots p (a ∷ [])) (b ∷ []) in
      (lookup b.id q.promise_slots ≡ some b)
      × (lookup b.id (by_slot (create_accept_message q)) ≡ none)
low_report_dropped p a b empty top r low above =
    Dropped-absent p _ a b (drop-Dropped p a b empty top low) r low
