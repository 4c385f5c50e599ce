-- ===== src/Paxos/Learner/Collisions.antt =====
-- Keys that coincide in the map of a learner (lab6/multipaxos/learner.go, lines 118-123).
use multi_paxos_work_in_prog.Common.{
  ℤ, pos, negsuc, false, int_eq, nat_eq, list_eq, some, arith, ◌≡◌, refl, ◌≤ℤ◌,
}
use multi_paxos_work_in_prog.Common.GoMap.{GoMap, lookup}
use multi_paxos_work_in_prog.Common.Text.{Text, string_of_int, is_rune}
use multi_paxos_work_in_prog.Paxos.{Learn}
use multi_paxos_work_in_prog.Paxos.Learner.{joined_key, put_learn}

-- The number is no code point: it is negative, a surrogate or past U+10FFFF.
abbrev pub NotRune : ℤ → Type 0
NotRune (pos n) = is_rune n ≡ false
NotRune (negsuc n) = Unit {0}

string_of_int_same : (a b : ℤ) → NotRune a → NotRune b → string_of_int a ≡ string_of_int b
unfolding string_of_int
string_of_int_same (pos a) (pos b) h k = ground arith
string_of_int_same (pos a) (negsuc b) h k = ground arith
string_of_int_same (negsuc a) (pos b) h k = ground arith
string_of_int_same (negsuc a) (negsuc b) h k = refl

same_key : (from a b : ℤ) → NotRune a → NotRune b → joined_key from a ≡ joined_key from b
unfolding joined_key
same_key from a b h k = rw (string_of_int_same a b h k)

-- A learn for a slot that is no code point is dropped, and its vote lost, if the learner holds a
-- learn of the same sender for any other such slot, of the same or a higher round.
pub learn_lost :
    (m : GoMap Text Learn) (x y : Learn)
    → lookup (joined_key x.from x.slot) m ≡ some x
    → y.from ≡ x.from
    → NotRune x.slot
    → NotRune y.slot
    → y.rnd ≤ℤ x.rnd
    → put_learn m y ≡ m
unfolding put_learn
learn_lost m x y held from rx ry older = ground (arith, same_key x.from x.slot y.slot rx ry)
