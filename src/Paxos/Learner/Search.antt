-- ===== src/Paxos/Learner/Search.antt =====
-- The search of `handleLearn` (lab6/multipaxos/learner.go) for a round and a slot with a quorum.
use multi_paxos_work_in_prog.Common.{
  ℕ, ◌≤◌, ◌<◌, ℤ, true, int_eq, int_beq_iff, nat_eq, list_eq, ◌==◌, List, [], ◌∷◌, Option, none,
  some, count, arith, ◌≡◌, ◌≢◌, refl, ◌∙◌, ap,
}
use multi_paxos_work_in_prog.Common.GoMap.{GoMap, lookup, Distinct, Listing, count-Listing}
use multi_paxos_work_in_prog.Common.Text.{Text}
use multi_paxos_work_in_prog.Paxos.{SlotId, Round, Learn}
use multi_paxos_work_in_prog.Paxos.Learner.{
  Learner, Orders, check_if_maj_round, Tally, empty_tally, or_zero, or_nil, tally_from, find_slot,
  find_round,
}
use multi_paxos_work_in_prog.Paxos.Learner.Tallies.{
  in_round, in_slot, in_both, tally-round_count, tally-slot_count, slots_of, tally-round_slot,
  count-slots_of, maj_loop_sound, maj_loop_complete, tally-Distinct,
}

-- Each traversal visits every entry of its map once, in any order.
pub record IsOrders (o : Orders) : Type 0 where
  pub learns : (m : GoMap Text Learn) → Distinct m → Listing m (o.of_learns m)
  pub rounds : (m : GoMap ℤ ℕ) → Distinct m → Listing m (o.of_rounds m)
  pub slots : (r : ℤ) (m : GoMap ℤ ℕ) → Distinct m → Listing m (o.of_slots r m)
  pub removal : (m : GoMap Text Learn) → Distinct m → Listing m (o.of_removal m)

find_slot_sound :
    (l : Learner) (rs : List SlotId) (m : GoMap ℤ ℕ) (s : SlotId)
    → find_slot l rs m ≡ some s
    → check_if_maj_round l rs s ≡ true
unfolding find_slot
find_slot_sound l rs [] s h = cc
find_slot_sound l rs ((k, c) ∷ m) s h = ground (arith, find_slot_sound l rs m s)

find_slot_complete :
    (l : Learner) (rs : List SlotId) (m : GoMap ℤ ℕ) (s : SlotId) (c : ℕ)
    → lookup s m ≡ some c
    → l.quorum ≤ c
    → check_if_maj_round l rs s ≡ true
    → find_slot l rs m ≢ none
unfolding find_slot lookup
find_slot_complete l rs [] s c h q k = cc
find_slot_complete l rs ((j, d) ∷ m) s c h q k =
    ground (arith, int_beq_iff j s, find_slot_complete l rs m s c)

find_round_sound :
    (o : Orders) (l : Learner) (t : Tally) (m : GoMap ℤ ℕ) (r : Round) (s : SlotId)
    → find_round o l t m ≡ some (r, s)
    → check_if_maj_round l (or_nil (lookup r t.round_slot)) s ≡ true
unfolding find_round
find_round_sound o l t [] r s h = cc
find_round_sound o l t ((k, c) ∷ m) r s h = ground (
  arith,
  find_slot_sound l (or_nil (lookup k t.round_slot)) (o.of_slots k t.slot_count) s,
  find_round_sound o l t m r s,
)

find_round_complete :
    (o : Orders) (l : Learner) (t : Tally) (m : GoMap ℤ ℕ) (r : Round) (c : ℕ)
    → lookup r m ≡ some c
    → l.quorum ≤ c
    → find_slot l (or_nil (lookup r t.round_slot)) (o.of_slots r t.slot_count) ≢ none
    → find_round o l t m ≢ none
unfolding find_round lookup
find_round_complete o l t [] r c h q k = cc
find_round_complete o l t ((j, d) ∷ m) r c h q k =
    ground (arith, int_beq_iff j r, find_round_complete o l t m r c)

-- What is searched: the tally of a traversal `visited` of the learns `m`.
module _ (o : Orders) (ok : IsOrders o) (l : Learner) (m : GoMap Text Learn) (d : Distinct m)
    (positive : 0 < l.quorum) where
  abbrev visited : GoMap Text Learn
  visited = o.of_learns m

  abbrev tally : Tally
  tally = tally_from empty_tally visited

  round_slots : (r : Round) → or_nil (lookup r tally.round_slot) ≡ slots_of r visited
  unfolding lookup
  round_slots r = tally-round_slot empty_tally visited r

  abbrev pub Quorate : Round → SlotId → Type 0
  Quorate r s = l.quorum ≤ count (in_both r s) m

  both : (r : Round) (s : SlotId) → count (in_both r s) visited ≡ count (in_both r s) m
  both r s = count-Listing (in_both r s) m visited d (ok.learns m d)

  pub search_sound :
      (r : Round) (s : SlotId)
      → find_round o l tally (o.of_rounds tally.round_count) ≡ some (r, s)
      → Quorate r s
  unfolding check_if_maj_round
  search_sound r s h =
      let passed = find_round_sound o l tally (o.of_rounds tally.round_count) r s h in
      let enough = maj_loop_sound l.quorum s 0 (or_nil (lookup r tally.round_slot)) passed in
      omega (
        arith,
        enough,
        ap (count (λ x. x == s)) (round_slots r),
        count-slots_of visited r s,
        both r s,
      )

  more_in_round :
      (v : GoMap Text Learn) (r : Round) (s : SlotId) → count (in_both r s) v ≤ count (in_round r) v
  more_in_round [] r s = omega arith
  more_in_round (e ∷ v) r s = ground (arith, more_in_round v r s)

  more_in_slot :
      (v : GoMap Text Learn) (r : Round) (s : SlotId) → count (in_both r s) v ≤ count (in_slot s) v
  more_in_slot [] r s = omega arith
  more_in_slot (e ∷ v) r s = ground (arith, more_in_slot v r s)

  from_zero : (a : Option ℕ) → 0 < or_zero a → a ≡ some (or_zero a)
  from_zero none h = absurd (omega arith)
  from_zero (some c) h = refl

  rounds : (r : Round) → or_zero (lookup r tally.round_count) ≡ count (in_round r) visited
  unfolding lookup
  rounds r = omega (arith, tally-round_count empty_tally visited r)

  slots : (s : SlotId) → or_zero (lookup s tally.slot_count) ≡ count (in_slot s) visited
  unfolding lookup
  slots s = omega (arith, tally-slot_count empty_tally visited s)

  passes :
      (r : Round) (s : SlotId)
      → Quorate r s
      → check_if_maj_round l (or_nil (lookup r tally.round_slot)) s ≡ true
  unfolding check_if_maj_round
  passes r s q = maj_loop_complete l.quorum s 0 (or_nil (lookup r tally.round_slot)) positive (
      omega (arith, ap (count (λ x. x == s)) (round_slots r), count-slots_of visited r s, both r s))

  slot_found :
      (r : Round) (s : SlotId)
      → Quorate r s
      → find_slot l (or_nil (lookup r tally.round_slot)) (o.of_slots r tally.slot_count) ≢ none
  slot_found r s q =
      find_slot_complete l (or_nil (lookup r tally.round_slot)) (o.of_slots r tally.slot_count) s
        (or_zero (lookup s tally.slot_count))
        ((ok.slots r tally.slot_count (tally-Distinct empty_tally visited tt tt).1).same s
          ∙ from_zero (lookup s tally.slot_count)
              (omega (arith, slots s, more_in_slot visited r s, both r s)))
        (omega (arith, slots s, more_in_slot visited r s, both r s)) (passes r s q)

  pub search_complete :
      (r : Round) (s : SlotId)
      → Quorate r s
      → find_round o l tally (o.of_rounds tally.round_count) ≢ none
  search_complete r s q =
      find_round_complete o l tally (o.of_rounds tally.round_count) r
        (or_zero (lookup r tally.round_count))
        ((ok.rounds tally.round_count (tally-Distinct empty_tally visited tt tt).0).same r
          ∙ from_zero (lookup r tally.round_count)
              (omega (arith, rounds r, more_in_round visited r s, both r s)))
        (omega (arith, rounds r, more_in_round visited r s, both r s)) (slot_found r s q)
