-- ===== src/Paxos/Learner/Tallies.antt =====
-- What the counting loop of `handleLearn` (lab6/multipaxos/learner.go) leaves in its maps.
use multi_paxos_work_in_prog.Common.{
  ℕ, ◌+◌, ◌≤◌, ◌<◌, ℤ, Bool, true, int_eq, int_beq_iff, nat_eq, list_eq, ◌==◌, if◌then◌else◌, ◌&&◌,
  List, [], ◌∷◌, ◌++◌, count, arith, ◌≡◌, refl,
}
use mathlib.Core.List.{append_assoc, append-nil}
use multi_paxos_work_in_prog.Common.GoMap.{GoMap, lookup, lookup-insert, Distinct, insert-Distinct}
use multi_paxos_work_in_prog.Common.Text.{Text}
use multi_paxos_work_in_prog.Paxos.{SlotId, Round, Learn}
use multi_paxos_work_in_prog.Paxos.Learner.{
  maj_loop, Tally, or_zero, or_nil, bump, tally_learn, tally_from,
}

-- tests on an entry of the map of learns
abbrev pub in_round : Round → Text × Learn → Bool
in_round r e = e.1.rnd == r

abbrev pub in_slot : SlotId → Text × Learn → Bool
in_slot s e = e.1.slot == s

abbrev pub in_both : Round → SlotId → Text × Learn → Bool
in_both r s e = (e.1.rnd == r) && (e.1.slot == s)

bump-lookup :
    (k j : ℤ) (m : GoMap ℤ ℕ)
    → or_zero (lookup j (bump k m)) ≡ (if k == j then 1 else 0) + or_zero (lookup j m)
unfolding bump
bump-lookup k j m = ground (arith, int_beq_iff k j, lookup-insert k j (or_zero (lookup k m) + 1) m)

-- The counter of a round is the number of learns in it.
pub tally-round_count :
    (t : Tally) (l : GoMap Text Learn) (r : Round)
    → or_zero (lookup r (tally_from t l).round_count)
      ≡ or_zero (lookup r t.round_count) + count (in_round r) l
unfolding tally_from tally_learn
tally-round_count t [] r = omega arith
tally-round_count t ((k, x) ∷ l) r =
    omega (arith, tally-round_count (tally_learn t x) l r, bump-lookup x.rnd r t.round_count)

pub tally-slot_count :
    (t : Tally) (l : GoMap Text Learn) (s : SlotId)
    → or_zero (lookup s (tally_from t l).slot_count)
      ≡ or_zero (lookup s t.slot_count) + count (in_slot s) l
unfolding tally_from tally_learn
tally-slot_count t [] s = omega arith
tally-slot_count t ((k, x) ∷ l) s =
    omega (arith, tally-slot_count (tally_learn t x) l s, bump-lookup x.slot s t.slot_count)

-- the slots of the learns of a round, in the order of the traversal
abbrev pub slots_of : Round → GoMap Text Learn → List SlotId
slots_of r [] = []
slots_of r ((k, x) ∷ l) = let rest = slots_of r l in if x.rnd == r then x.slot ∷ rest else rest

pub tally-round_slot :
    (t : Tally) (l : GoMap Text Learn) (r : Round)
    → or_nil (lookup r (tally_from t l).round_slot) ≡ or_nil (lookup r t.round_slot) ++ slots_of r l
unfolding tally_from tally_learn
tally-round_slot t [] r = rw append-nil
tally-round_slot t ((k, x) ∷ l) r = ground (
  arith,
  tally-round_slot (tally_learn t x) l r,
  int_beq_iff x.rnd r,
  lookup-insert x.rnd r (or_nil (lookup x.rnd t.round_slot) ++ x.slot ∷ []) t.round_slot,
  append_assoc (or_nil (lookup r t.round_slot)) (x.slot ∷ []) (slots_of r l),
)

pub count-slots_of :
    (l : GoMap Text Learn) (r : Round) (s : SlotId)
    → count (λ x. x == s) (slots_of r l) ≡ count (in_both r s) l
count-slots_of [] r s = refl
count-slots_of ((k, x) ∷ l) r s = ground (arith, count-slots_of l r s)

-- The check passes exactly when the slot occurs often enough.
pub maj_loop_sound :
    (q : ℕ) (s : SlotId) (c : ℕ) (l : List SlotId)
    → maj_loop q s c l ≡ true
    → q ≤ c + count (λ x. x == s) l
unfolding maj_loop
maj_loop_sound q s c [] h = cc
maj_loop_sound q s c (x ∷ l) h =
    ground (arith, maj_loop_sound q s (c + 1) l, maj_loop_sound q s c l)

pub maj_loop_complete :
    (q : ℕ) (s : SlotId) (c : ℕ) (l : List SlotId)
    → c < q
    → q ≤ c + count (λ x. x == s) l
    → maj_loop q s c l ≡ true
unfolding maj_loop
maj_loop_complete q s c [] lt h = absurd (omega arith)
maj_loop_complete q s c (x ∷ l) lt h =
    ground (arith, maj_loop_complete q s (c + 1) l, maj_loop_complete q s c l)

-- The counters have each key once.
pub tally-Distinct :
    (t : Tally) (l : GoMap Text Learn)
    → Distinct t.round_count
    → Distinct t.slot_count
    → Distinct (tally_from t l).round_count × Distinct (tally_from t l).slot_count
unfolding tally_from tally_learn bump
tally-Distinct t [] d e = (d, e)
tally-Distinct t ((k, x) ∷ l) d e =
    tally-Distinct (tally_learn t x) l (insert-Distinct x.rnd _ t.round_count d)
      (insert-Distinct x.slot _ t.slot_count e)
