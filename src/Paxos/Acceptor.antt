-- ===== src/Paxos/Acceptor.antt =====
-- lab6/multipaxos/acceptor.go.
pub mod Sorting
pub mod Voting
pub mod Reports
use multi_paxos_work_in_prog.Common.{
  ℤ, pos, Bool, true, false, ltb_ℤ, leb_ℤ, int_eq, if◌then◌else◌, ◌||◌, ◌&&◌, not, List, [], ◌∷◌,
  Option, none, some, select, map, ltb, length,
}
use multi_paxos_work_in_prog.Common.GoMap.{GoMap, lookup, insert}
use multi_paxos_work_in_prog.Paxos.{
  SlotId, Round, no_round, Value, zero_value, Prepare, PromiseSlot, Promise, zero_promise, Accept,
  Learn, zero_learn,
}

-- The fields but the channels: what goes out on them is the result of a handler.
pub record Acceptor : Type 0 where
  pub accepted_rounds : Round
  pub prev_voted_val : Value
  pub prev_voted_round : Round
  pub slot_id : SlotId
  pub prev_slot_id : SlotId
  pub slots : GoMap SlotId PromiseSlot
  pub id : ℤ

unfoldable pub new_acceptor : ℤ → Acceptor
new_acceptor id = record {
  accepted_rounds = no_round;
  prev_voted_val = zero_value;
  prev_voted_round = no_round;
  slot_id = pos 0;
  prev_slot_id = pos 0;
  slots = [];
  id = id;
}

-- `Less` of `slot_data`
unfoldable pub less : PromiseSlot → PromiseSlot → Bool
less p q = ltb_ℤ p.id q.id

-- `sort.Sort(slot_data(l))`
unfoldable pub insert_slot : PromiseSlot → List PromiseSlot → List PromiseSlot
unfolding less
insert_slot p [] = p ∷ []
insert_slot p (q ∷ l) = if less p q then p ∷ q ∷ l else q ∷ insert_slot p l

unfoldable pub sort_slots : List PromiseSlot → List PromiseSlot
unfolding insert_slot
sort_slots [] = []
sort_slots (p ∷ l) = insert_slot p (sort_slots l)

-- The loop that collects the slots from `slot` on; `entries` is the order in which it meets them.
unfoldable pub slots_from : SlotId → GoMap SlotId PromiseSlot → List PromiseSlot
slots_from slot [] = []
slots_from slot ((i, p) ∷ entries) =
    if leb_ℤ slot i then p ∷ slots_from slot entries else slots_from slot entries

-- nil unless something was collected
abbrev pub to_slice : List PromiseSlot → Option (List PromiseSlot)
to_slice [] = none
to_slice (p ∷ l) = some (p ∷ l)

-- `range` gives the order in which the run-time visits a map.
abbrev pub Range : Type 0
Range = GoMap SlotId PromiseSlot → GoMap SlotId PromiseSlot

unfoldable pub handle_prepare : Range → Acceptor → Prepare → Acceptor × Promise × Bool
handle_prepare range a prepare_msg =
    if ltb_ℤ a.accepted_rounds prepare_msg.crnd
    then (
      record a { accepted_rounds = prepare_msg.crnd; slot_id = prepare_msg.slot },
      record {
        to = prepare_msg.from;
        from = a.id;
        rnd = prepare_msg.crnd;
        slots = to_slice (sort_slots (slots_from prepare_msg.slot (range a.slots)));
      },
      true,
    )
    else (a, zero_promise, false)

-- the condition under which a vote is stored: `(ok && prev_slot.Vrnd < acc.Rnd) || !ok`
unfoldable pub is_newer : Option PromiseSlot → Round → Bool
is_newer none rnd = true
is_newer (some prev_slot) rnd = ltb_ℤ prev_slot.vrnd rnd

unfoldable pub store_vote : Accept → GoMap SlotId PromiseSlot → GoMap SlotId PromiseSlot
unfolding is_newer
store_vote acc slots =
    if is_newer (lookup acc.slot slots) acc.rnd
    then insert acc.slot (record { id = acc.slot; vrnd = acc.rnd; vval = acc.val }) slots
    else slots

unfoldable pub handle_accept : Acceptor → Accept → Acceptor × Learn × Bool
unfolding store_vote
handle_accept a acc =
    if leb_ℤ a.accepted_rounds acc.rnd
    then (
      record a {
        accepted_rounds = acc.rnd;
        prev_voted_val = acc.val;
        prev_voted_round = acc.rnd;
        slot_id = acc.slot;
        prev_slot_id = acc.slot;
        slots = store_vote acc a.slots;
      },
      record { from = a.id; slot = acc.slot; rnd = acc.rnd; val = acc.val },
      true,
    )
    else (a, zero_learn, false)

-- What the run loop of `Start` takes from its channels, but for `stop`, which ends the loop.
pub data Event : Type 0 where
  accept_in : Accept → Event
  prepare_in : Range → Prepare → Event

-- What it sends.
pub data Output : Type 0 where
  learn_out : Learn → Output
  promise_out : Promise → Output

-- One round of the loop.
unfoldable pub step : Acceptor → Event → Acceptor × Option Output
unfolding handle_accept handle_prepare
step a (accept_in acc) =
    let (b, learner_msg, out) = handle_accept a acc in
    (b, if out then some (learn_out learner_msg) else none)
step a (prepare_in range prp) =
    let (b, promise_msg, out) = handle_prepare range a prp in
    (b, if out then some (promise_out promise_msg) else none)

abbrev pub send : Option Output → List Output → List Output
send none sent = sent
send (some o) sent = o ∷ sent

-- The loop over the messages that arrive; `sent` holds what was sent, the newest first.
unfoldable pub run : Acceptor → List Output → List Event → Acceptor × List Output
run a sent [] = (a, sent)
run a sent (e ∷ es) = let (b, o) = step a e in run b (send o sent) es
