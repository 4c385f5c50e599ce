-- ===== src/Paxos/Learner.antt =====
-- lab6/multipaxos/learner.go.
pub mod Tallies
pub mod Search
pub mod Values
pub mod Senders
pub mod Decisions
pub mod Origins
pub mod Collisions
use multi_paxos_work_in_prog.Common.{
  ℕ, zero, suc, ◌+◌, ◌/◌, ℤ, pos, Bool, true, false, ltb_ℤ, leb, int_eq, nat_eq, list_eq, ◌==◌,
  if◌then◌else◌, ◌&&◌, List, [], ◌∷◌, ◌++◌, Option, none, some,
}
use multi_paxos_work_in_prog.Common.GoMap.{GoMap, lookup, insert, delete}
use multi_paxos_work_in_prog.Common.Text.{Text, codes, string_of_int}
use multi_paxos_work_in_prog.Paxos.{SlotId, Round, Value, zero_value, Learn, DecidedValue}

-- The fields but the channels. `n` and `quorum` count nodes.
pub record Learner : Type 0 where
  pub id : ℤ
  pub n : ℕ
  pub quorum : ℕ
  pub learns : GoMap Text Learn

unfoldable pub new_learner : ℤ → ℕ → Learner
new_learner id nr_of_nodes = record {
  id = id;
  n = nr_of_nodes;
  quorum = nr_of_nodes / 2 + 1;
  learns = [];
}

-- `string(a) + "_" + string(b)`
unfoldable pub joined_key : ℤ → ℤ → Text
unfolding string_of_int
joined_key a b = string_of_int a ++ codes "_" ++ string_of_int b

-- The orders in which the run-time visits the maps of one call.
pub record Orders : Type 0 where
  pub of_learns : GoMap Text Learn → GoMap Text Learn
  pub of_rounds : GoMap ℤ ℕ → GoMap ℤ ℕ
  pub of_slots : ℤ → GoMap ℤ ℕ → GoMap ℤ ℕ
  pub of_removal : GoMap Text Learn → GoMap Text Learn

remove_loop : Round → SlotId → GoMap Text Learn → GoMap Text Learn → GoMap Text Learn
remove_loop round slt [] learns = learns
remove_loop round slt ((k, learn) ∷ rest) learns =
    remove_loop round slt rest
      (if (learn.rnd == round) && (learn.slot == slt) then delete k learns else learns)

unfoldable pub remove_learn : Orders → Learner → Round → SlotId → Learner
unfolding remove_loop
remove_learn o l round slt = record l {
  learns = remove_loop round slt (o.of_removal l.learns) l.learns;
}

-- The loop of `check_if_maj_round` from a count on.
unfoldable pub maj_loop : ℕ → ℤ → ℕ → List SlotId → Bool
maj_loop quorum slt count [] = false
maj_loop quorum slt count (sl ∷ rest) =
    let count' = if sl == slt then count + 1 else count in
    let later = maj_loop quorum slt count' rest in if leb quorum count' then true else later

unfoldable pub check_if_maj_round : Learner → List SlotId → ℤ → Bool
unfolding maj_loop
check_if_maj_round l round_slot slt = maj_loop l.quorum slt 0 round_slot

-- the four maps of one call of `handleLearn`
pub record Tally : Type 0 where
  pub round_count : GoMap ℤ ℕ
  pub round_slot : GoMap ℤ (List SlotId)
  pub slot_count : GoMap ℤ ℕ
  pub round_slot_val : GoMap Text Value

abbrev pub empty_tally : Tally
empty_tally = record { round_count = []; round_slot = []; slot_count = []; round_slot_val = [] }

-- `m[k]` of a counter, and of a slice
abbrev pub or_zero : Option ℕ → ℕ
or_zero none = 0
or_zero (some c) = c

abbrev pub or_nil : Option (List SlotId) → List SlotId
or_nil none = []
or_nil (some l) = l

-- `m[k]++`
bump : ℤ → GoMap ℤ ℕ → GoMap ℤ ℕ
bump k m = insert k (or_zero (lookup k m) + 1) m

-- One round of the loop that counts; appending to a missing slice makes one of one entry.
tally_learn : Tally → Learn → Tally
unfolding bump
tally_learn t learn = record {
  round_count = bump learn.rnd t.round_count;
  slot_count = bump learn.slot t.slot_count;
  round_slot_val = insert (joined_key learn.rnd learn.slot) learn.val t.round_slot_val;
  round_slot =
      insert learn.rnd (or_nil (lookup learn.rnd t.round_slot) ++ learn.slot ∷ []) t.round_slot;
}

unfoldable pub tally_from : Tally → GoMap Text Learn → Tally
unfolding tally_learn
tally_from t [] = t
tally_from t ((k, learn) ∷ rest) = tally_from (tally_learn t learn) rest

-- The inner loop of the search, over the slots that have learns.
find_slot : Learner → List SlotId → GoMap ℤ ℕ → Option SlotId
find_slot l round_slot [] = none
find_slot l round_slot ((slt, count) ∷ rest) =
    let later = find_slot l round_slot rest in
    if leb l.quorum count
    then (if check_if_maj_round l round_slot slt then some slt else later)
    else later

-- The outer loop, over the rounds.
unfoldable pub find_round : Orders → Learner → Tally → GoMap ℤ ℕ → Option (Round × SlotId)
unfolding find_slot
find_round o l t [] = none
find_round o l t ((round, count) ∷ rest) =
    let later = find_round o l t rest in
    if leb l.quorum count
    then elim (find_slot l (or_nil (lookup round t.round_slot)) (o.of_slots round t.slot_count)) [
      | some slt ↦ some (round, slt)
      | none ↦ later
    ]
    else later

-- the condition under which a learn is stored: `(ok && learn.Rnd > prev_learn.Rnd) || !ok`
is_newer : Option Learn → Learn → Bool
is_newer none learn = true
is_newer (some prev_learn) learn = ltb_ℤ prev_learn.rnd learn.rnd

unfoldable pub put_learn : GoMap Text Learn → Learn → GoMap Text Learn
unfolding is_newer
put_learn learns learn =
    let key = joined_key learn.from learn.slot in
    if is_newer (lookup key learns) learn then insert key learn learns else learns

-- `m[k]` of a value
abbrev pub or_zero_value : Option Value → Value
or_zero_value none = zero_value
or_zero_value (some v) = v

-- The result is the value, the slot and whether there is one.
unfoldable pub handle_learn : Orders → Learner → Learn → Learner × Value × SlotId × Bool
unfolding put_learn tally_from find_round remove_learn
handle_learn o l learn =
    let m = record l { learns = put_learn l.learns learn } in
    let t = tally_from empty_tally (o.of_learns m.learns) in
    elim (find_round o m t (o.of_rounds t.round_count)) [
      | some (round, slt) ↦ (
        remove_learn o m round slt,
        or_zero_value (lookup (joined_key round slt) t.round_slot_val),
        slt,
        true,
      )
      | none ↦ (m, zero_value, pos 0, false)
    ]

-- The run loop of `Start` over the learns that arrive; `decisions` holds what it has sent, the
-- newest first.
unfoldable pub run :
    Learner → List DecidedValue → List (Orders × Learn) → Learner × List DecidedValue
run l decisions [] = (l, decisions)
run l decisions ((o, learn) ∷ es) =
    let (l', val, slot_id, output) = handle_learn o l learn in
    run l' (if output then record { slot_id = slot_id; value = val } ∷ decisions else decisions) es
