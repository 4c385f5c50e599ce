-- ===== src/Paxos/Learner/Decisions.antt =====
-- When `handleLearn` (lab6/multipaxos/learner.go) decides a value.
use multi_paxos_work_in_prog.Common.{
  ℕ, ◌+◌, ◌*◌, ◌≤◌, ◌<◌, ℤ, pos, Bool, true, false, leb, int_eq, int_beq_iff, nat_eq, list_eq, ◌==◌,
  ◌&&◌, List, [], ◌∷◌, none, some, All, count, length, arith, ◌≡◌, refl, ◌∙◌, Bool-cases,
  Option-cases, inl, inr, subst, leb→le,
}
use multi_paxos_work_in_prog.Common.GoMap.{GoMap, lookup, count-Listing}
use multi_paxos_work_in_prog.Common.Text.{Text}
use multi_paxos_work_in_prog.Paxos.{SlotId, Round, Value, Learn, DecidedValue, zero_value}
use multi_paxos_work_in_prog.Paxos.Learner.{
  Orders, Learner, empty_tally, tally_from, find_round, put_learn, handle_learn, remove_learn,
  or_zero_value, joined_key, new_learner, run,
}
use multi_paxos_work_in_prog.Paxos.Learner.Tallies.{in_both}
use multi_paxos_work_in_prog.Paxos.Learner.Search.{IsOrders, search_sound, search_complete}
use multi_paxos_work_in_prog.Paxos.Learner.Values.{
  unless_in, remove_learn-lookup, AllRunes, IsRune, ValueIn, tally_from-value,
}
use multi_paxos_work_in_prog.Paxos.Learner.Senders.{
  IsValid, voters, Unique, length-voters, voters-Unique, put-IsValid, remove-IsValid,
  remove_learn-quorum, Listing-AllRunes, Listing-ValueIn, new-IsValid,
}

-- The learns after the new one has been put in.
abbrev pub with_learn : Learner → Learn → Learner
with_learn l x = record l { learns = put_learn l.learns x }

-- A decision for the slot `s`, from the learns `m`, that leaves the learns `m'`.
pub record Decided (l : Learner) (m m' : GoMap Text Learn) (s : SlotId) : Type 0 where
  pub round : Round
  pub quorate : l.quorum ≤ length (voters round s m)
  pub senders : Unique (voters round s m)
  pub removed : (k : Text) → lookup k m' ≡ unless_in round s (lookup k m)

-- What a call of `handleLearn` may return.
pub data Outcome (o : Orders) (l : Learner) (x : Learn)
    : Learner × Value × SlotId × Bool → Type 0 where
  undecided :
      ((r : Round) (s : SlotId) → length (voters r s (with_learn l x).learns) < l.quorum)
      → Outcome o l x (with_learn l x, zero_value, pos 0, false)
  decided :
      (r : Round) (s : SlotId) (v : Value)
      → Decided l (with_learn l x).learns (remove_learn o (with_learn l x) r s).learns s
      → Outcome o l x (remove_learn o (with_learn l x) r s, v, s, true)

runes_of_count :
    (m : GoMap Text Learn) (r : Round) (s : SlotId)
    → 0 < count (in_both r s) m
    → AllRunes m
    → IsRune r × IsRune s
runes_of_count [] r s h a = absurd (omega arith)
runes_of_count ((k, x) ∷ m) r s h a = elim (Bool-cases ((x.rnd == r) && (x.slot == s))) [
  | inr miss ↦ runes_of_count m r s (ground arith) a.1
  | inl hit ↦ (
    subst IsRune (ground (arith, int_beq_iff x.rnd r)) a.0.0,
    subst IsRune (ground (arith, int_beq_iff x.slot s)) a.0.1,
  )
]

module _ (o : Orders) (ok : IsOrders o) (l : Learner) (x : Learn) (valid : IsValid l) where
  abbrev after : Learner
  after = with_learn l x

  after-IsValid : IsValid after
  after-IsValid = put-IsValid l x valid

  abbrev visited : GoMap Text Learn
  visited = o.of_learns after.learns

  found_value :
      (r : Round) (s : SlotId)
      → l.quorum ≤ count (in_both r s) after.learns
      → AllRunes after.learns
      → ValueIn r s
          (or_zero_value (lookup (joined_key r s) (tally_from empty_tally visited).round_slot_val))
          after.learns
  found_value r s q a =
      let (rr, rs) = runes_of_count after.learns r s (omega (arith, valid.positive)) a in
      let visits = ok.learns after.learns after-IsValid.distinct in
      elim (tally_from-value empty_tally visited r s rr rs
        (Listing-AllRunes after.learns visited visits a)) [
          | inl (e, none_counted) ↦ absurd (
              omega (
                arith,
                count-Listing (in_both r s) after.learns visited after-IsValid.distinct visits,
                valid.positive,
              ))
          | inr (v, e, i) ↦ rw e (Listing-ValueIn r s v after.learns visited visits i)
        ]

  found-Decided :
      (r : Round) (s : SlotId)
      → find_round o after
          (tally_from empty_tally visited)
          (o.of_rounds (tally_from empty_tally visited).round_count)
        ≡ some (r, s)
      → Decided l after.learns (remove_learn o after r s).learns s
  found-Decided r s h =
      let q = search_sound o ok after after.learns after-IsValid.distinct valid.positive r s h in
      record {
        round = r;
        quorate = omega (arith, q, length-voters r s after.learns);
        senders = voters-Unique r s after.learns after-IsValid.distinct after-IsValid.keyed;
        removed = remove_learn-lookup o after r s (ok.removal after.learns after-IsValid.distinct);
      }

  missed :
      (r : Round) (s : SlotId)
      → find_round o after
          (tally_from empty_tally visited)
          (o.of_rounds (tally_from empty_tally visited).round_count)
        ≡ none
      → length (voters r s after.learns) < l.quorum
  missed r s h = elim (Bool-cases (leb l.quorum (length (voters r s after.learns)))) [
    | inr few ↦ ground arith
    | inl many ↦ absurd (
        search_complete o ok after after.learns after-IsValid.distinct valid.positive r s
          (omega (
            arith,
            leb→le l.quorum (length (voters r s after.learns)) many,
            length-voters r s after.learns,
          ))
          h)
  ]

  -- A call of `handleLearn` decides exactly when, with the new learn, some round and slot have
  -- learns from a quorum of different senders.
  pub handle_learn-Outcome : Outcome o l x (handle_learn o l x)
  unfolding handle_learn
  handle_learn-Outcome =
      elim (Option-cases (
        find_round o after (tally_from empty_tally visited)
          (o.of_rounds (tally_from empty_tally visited).round_count))) [
            | inr ((r, s), h) ↦ rw (h, handle_learn) (decided r s _ (found-Decided r s h))
            | inl h ↦ rw (h, handle_learn) (undecided (λ r s. missed r s h))
          ]

  -- The value of a decision is that of a learn which counts for it.
  handle_learn-value :
      {l' : Learner} {v : Value} {s : SlotId}
      → AllRunes after.learns
      → handle_learn o l x ≡ (l', v, s, true)
      → (r : Round) × (l.quorum ≤ length (voters r s after.learns)) × ValueIn r s v after.learns
  unfolding handle_learn
  handle_learn-value {l'} {v} {s} a e =
      elim (Option-cases (
        find_round o after (tally_from empty_tally visited)
          (o.of_rounds (tally_from empty_tally visited).round_count))) [
            | inl h ↦ absurd (ground (arith, h, e))
            | inr ((r, s'), h) ↦
                let q =
                  search_sound o ok after after.learns after-IsValid.distinct valid.positive r s'
                    h in
                let decision : (or_zero_value
                        (lookup (joined_key r s') (tally_from empty_tally visited).round_slot_val)
                      ≡ v)
                    × (s' ≡ s) =
                  ground (arith, h, e) in
                (
                  r,
                  omega (
                    arith,
                    subst (λ t. l.quorum ≤ count (in_both r t) after.learns) decision.1 q,
                    length-voters r s after.learns,
                  ),
                  subst (λ t. ValueIn r t v after.learns) decision.1
                      (subst (λ w. ValueIn r s' w after.learns) decision.0 (found_value r s' q a)),
                )
          ]

  pub Outcome-IsValid :
      {r : Learner × Value × SlotId × Bool}
      → Outcome o l x r
      → IsValid r.0 × (r.0.quorum ≡ l.quorum)
  Outcome-IsValid (undecided few) = (after-IsValid, refl)
  Outcome-IsValid (decided r s v d) = (
    remove-IsValid o after r s (ok.removal after.learns after-IsValid.distinct) after-IsValid,
    remove_learn-quorum o after r s,
  )

-- The traversals of every call visit each entry once.
abbrev pub AllOrders : List (Orders × Learn) → Type 0
AllOrders = All (λ e. IsOrders e.0)

pub run-IsValid :
    (l : Learner) (ds : List DecidedValue) (es : List (Orders × Learn))
    → AllOrders es
    → IsValid l
    → IsValid (run l ds es).0 × ((run l ds es).0.quorum ≡ l.quorum)
unfolding run
run-IsValid l ds [] ok v = (v, refl)
run-IsValid l ds ((o, x) ∷ es) ok v =
    let (v', q) = Outcome-IsValid o ok.0 l x v (handle_learn-Outcome o ok.0 l x v) in
    let (v'', q') = run-IsValid (handle_learn o l x).0 _ es ok.1 v' in (v'', q' ∙ q)

-- Whatever learns a new learner of `n` nodes has handled, and in whatever orders its maps are
-- visited, a call decides exactly when, with the new learn stored, some round and slot have learns
-- from a quorum of different senders, and the quorum is the least number above half of the nodes. A
-- call that decides returns that slot, and takes out of the map exactly the learns of that round for that slot. A call that
-- does not decide only stores the new learn.
pub learner_decides :
    (id : ℤ) (n : ℕ) (es : List (Orders × Learn)) (o : Orders) (x : Learn)
    → AllOrders es
    → IsOrders o
    → let l = (run (new_learner id n) [] es).0 in
      Outcome o l x (handle_learn o l x) × (n < 2 * l.quorum) × (2 * l.quorum ≤ n + 2)
learner_decides id n es o x all ok =
    let (v, q) = run-IsValid (new_learner id n) [] es all (new-IsValid id n) in
    let (big, least) = majority id n in
    (handle_learn-Outcome o ok _ x v, omega (arith, q, big), omega (arith, q, least))
  where
    majority :
        (id : ℤ) (n : ℕ)
        → (n < 2 * (new_learner id n).quorum) × (2 * (new_learner id n).quorum ≤ n + 2)
    majority id n = unfold new_learner in (omega arith, omega arith)

-- Where the rounds and slots of the learns in the map are code points, the value that a call
-- decides for a slot is the value of a learn for it, of a round in which a quorum of learns for
-- the slot is in the map.
pub decided_value :
    (id : ℤ) (n : ℕ) (es : List (Orders × Learn)) (o : Orders) (x : Learn) {l' : Learner}
    {v : Value} {s : SlotId}
    → AllOrders es
    → IsOrders o
    → let l = (run (new_learner id n) [] es).0 in
      AllRunes (with_learn l x).learns
      → handle_learn o l x ≡ (l', v, s, true)
      → (r : Round) × (l.quorum ≤ length (voters r s (with_learn l x).learns))
        × ValueIn r s v (with_learn l x).learns
decided_value id n es o x all ok runes e =
    let (v, q) = run-IsValid (new_learner id n) [] es all (new-IsValid id n) in
    handle_learn-value o ok (run (new_learner id n) [] es).0 x v runes e
