-- ===== src/Paxos/Learner/Values.antt =====
-- The value that `handleLearn` (lab6/multipaxos/learner.go) returns for a round and a slot, and what
-- `remove_learn` takes out of the map.
use multi_paxos_work_in_prog.Common.{
  ℤ, pos, negsuc, true, int_eq, int_beq_iff, nat_eq, list_eq, ◌==◌, if◌then◌else◌, ◌&&◌, [], ◌∷◌,
  Option, none, some, All, count, arith, ◌≡◌, refl, ◌∙◌, Bool-cases, inl, inr, ◌⊎◌, subst,
  list_beq_iff,
}
use multi_paxos_work_in_prog.Common.GoMap.{
  GoMap, lookup, delete, lookup-insert, lookup-delete, Distinct, delete-Distinct, Listing,
}
use multi_paxos_work_in_prog.Common.Text.{Text, string_of_int, is_rune}
use multi_paxos_work_in_prog.Paxos.{SlotId, Round, Value, Learn}
use multi_paxos_work_in_prog.Paxos.Learner.{
  Orders, Learner, Tally, tally_learn, tally_from, joined_key, remove_loop, remove_learn,
}
use multi_paxos_work_in_prog.Paxos.Learner.Tallies.{in_both}

-- The number is a code point that a string can hold.
abbrev pub IsRune : ℤ → Type 0
IsRune (pos n) = is_rune n ≡ true
IsRune (negsuc n) = ⊥

-- Among code points the key tells its two numbers apart.
pub joined_key-injective :
    (a b c d : ℤ)
    → IsRune a
    → IsRune b
    → IsRune c
    → IsRune d
    → joined_key a b ≡ joined_key c d
    → (a ≡ c) × (b ≡ d)
unfolding joined_key string_of_int is_rune
joined_key-injective (pos a) (pos b) (pos c) (pos d) ra rb rc rd h = ground arith
joined_key-injective (pos a) (pos b) (pos c) (negsuc d) ra rb rc rd h = absurd rd
joined_key-injective (pos a) (pos b) (negsuc c) d ra rb rc rd h = absurd rc
joined_key-injective (pos a) (negsuc b) c d ra rb rc rd h = absurd rb
joined_key-injective (negsuc a) b c d ra rb rc rd h = absurd ra

-- Every learn has a round and a slot that are code points.
abbrev pub AllRunes : GoMap Text Learn → Type 0
AllRunes = All (λ e. IsRune e.1.rnd × IsRune e.1.slot)

-- `v` is the value of one of the learns of the round for the slot.
abbrev pub ValueIn : Round → SlotId → Value → GoMap Text Learn → Type 0
ValueIn r s v [] = ⊥
ValueIn r s v ((k, x) ∷ l) = ((x.rnd ≡ r) × (x.slot ≡ s) × (x.val ≡ v)) ⊎ ValueIn r s v l

-- The entry of a tally for the round and the slot: as before if nothing was counted for them, and
-- else the value of one of the learns counted.
abbrev ValueFrom : Round → SlotId → Option Value → GoMap Text Learn → Option Value → Type 0
ValueFrom r s old l new =
    ((new ≡ old) × (count (in_both r s) l ≡ 0)) ⊎ ((v : Value) × (new ≡ some v) × ValueIn r s v l)

tally_learn-value :
    (t : Tally) (x : Learn) (r : Round) (s : SlotId)
    → IsRune r
    → IsRune s
    → IsRune x.rnd
    → IsRune x.slot
    → lookup (joined_key r s) (tally_learn t x).round_slot_val ≡ (
        if (x.rnd == r) && (x.slot == s)
        then some x.val
        else lookup (joined_key r s) t.round_slot_val)
unfolding tally_learn
tally_learn-value t x r s rr rs xr xs = ground (
  arith,
  lookup-insert (joined_key x.rnd x.slot) (joined_key r s) x.val t.round_slot_val,
  list_beq_iff (joined_key x.rnd x.slot) (joined_key r s),
  joined_key-injective x.rnd x.slot r s,
  int_beq_iff x.rnd r,
  int_beq_iff x.slot s,
)

cons_value :
    (k : Text) (x : Learn) (r : Round) (s : SlotId) (old : Option Value) (l : GoMap Text Learn)
    (new : Option Value)
    → ValueFrom r s (if (x.rnd == r) && (x.slot == s) then some x.val else old) l new
    → ValueFrom r s old ((k, x) ∷ l) new
cons_value k x r s old l new (inr (v, e, i)) = inr (v, e, inr i)
cons_value k x r s old l new (inl (e, c)) = elim (Bool-cases ((x.rnd == r) && (x.slot == s))) [
  | inl hit ↦ inr (
    x.val,
    ground arith,
    inl (ground (arith, int_beq_iff x.rnd r), ground (arith, int_beq_iff x.slot s), refl),
  )
  | inr miss ↦ inl (ground arith, ground arith)
]

pub tally_from-value :
    (t : Tally) (l : GoMap Text Learn) (r : Round) (s : SlotId)
    → IsRune r
    → IsRune s
    → AllRunes l
    → ValueFrom r s
        (lookup (joined_key r s) t.round_slot_val)
        l
        (lookup (joined_key r s) (tally_from t l).round_slot_val)
unfolding tally_from
tally_from-value t [] r s rr rs a = inl (refl, refl)
tally_from-value t ((k, x) ∷ l) r s rr rs a =
    let new = lookup (joined_key r s) (tally_from (tally_learn t x) l).round_slot_val in
    cons_value k x r s (lookup (joined_key r s) t.round_slot_val) l new (
      subst (λ o. ValueFrom r s o l new) (tally_learn-value t x r s rr rs a.0.0 a.0.1)
        (tally_from-value (tally_learn t x) l r s rr rs a.1))

-- what is left of an entry when the learns of a round for a slot go
abbrev pub unless_in : Round → SlotId → Option Learn → Option Learn
unless_in r s none = none
unless_in r s (some x) = if (x.rnd == r) && (x.slot == s) then none else some x

abbrev removed_by : Round → SlotId → Option Learn → Option Learn → Option Learn
removed_by r s none old = old
removed_by r s (some x) old = if (x.rnd == r) && (x.slot == s) then none else old

remove_loop-lookup :
    (r : Round) (s : SlotId) (es m : GoMap Text Learn) (j : Text)
    → Distinct es
    → lookup j (remove_loop r s es m) ≡ removed_by r s (lookup j es) (lookup j m)
unfolding remove_loop lookup
remove_loop-lookup r s [] m j d = refl
remove_loop-lookup r s ((k, x) ∷ es) m j d = ground (
  arith,
  list_beq_iff k j,
  lookup-delete k j m,
  remove_loop-lookup r s es m j d.1,
  remove_loop-lookup r s es (delete k m) j d.1,
)

remove_loop-Distinct :
    (r : Round) (s : SlotId) (es m : GoMap Text Learn)
    → Distinct m
    → Distinct (remove_loop r s es m)
unfolding remove_loop
remove_loop-Distinct r s [] m d = d
remove_loop-Distinct r s ((k, x) ∷ es) m d = ground (
  arith,
  remove_loop-Distinct r s es m d,
  remove_loop-Distinct r s es (delete k m),
  delete-Distinct k m d,
)

removed_self : (r : Round) (s : SlotId) (o : Option Learn) → removed_by r s o o ≡ unless_in r s o
removed_self r s none = refl
removed_self r s (some x) = refl

-- `remove_learn` takes out exactly the learns of the round for the slot.
pub remove_learn-lookup :
    (o : Orders) (l : Learner) (r : Round) (s : SlotId)
    → Listing l.learns (o.of_removal l.learns)
    → (j : Text) → lookup j (remove_learn o l r s).learns ≡ unless_in r s (lookup j l.learns)
unfolding remove_learn
remove_learn-lookup o l r s visits j =
    remove_loop-lookup r s (o.of_removal l.learns) l.learns j visits.distinct
    ∙ rw (visits.same j) (removed_self r s (lookup j l.learns))

pub remove_learn-Distinct :
    (o : Orders) (l : Learner) (r : Round) (s : SlotId)
    → Distinct l.learns
    → Distinct (remove_learn o l r s).learns
unfolding remove_learn
remove_learn-Distinct o l r s d = remove_loop-Distinct r s (o.of_removal l.learns) l.learns d
