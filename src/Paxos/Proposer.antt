-- ===== src/Paxos/Proposer.antt =====
-- lab6/multipaxos/proposer.go.
pub mod Frames
pub mod Quorum
pub mod Rounds
pub mod Reports
pub mod Accepts
pub mod Sending
pub mod Reuse
pub mod Evidence
pub mod Sources
pub mod Filling
pub mod Asking
use multi_paxos_work_in_prog.Common.{
  ℕ, zero, suc, ◌+◌, ◌/◌, ℤ, pos, negsuc, pos_part, ◌-ℤ◌, Bool, true, false, ltb_ℤ, leb_ℤ, leb,
  int_eq, ◌==◌, if◌then◌else◌, ◌&&◌, not, List, [], ◌∷◌, ◌++◌, Option, none, some, get_elem?, set,
  replicate, length,
}
use multi_paxos_work_in_prog.Common.Int.{add_int}
use multi_paxos_work_in_prog.Common.GoMap.{GoMap, lookup, insert}
use multi_paxos_work_in_prog.Paxos.{
  SlotId, Round, Value, noop_value, Prepare, PromiseSlot, Promise, Accept, reported,
}

-- The fields but the channels and the ticker. `nil` in `promises` is `none`; the two queues are
-- lists with the front first. `n`, `quorum` and `promise_count` count nodes.
pub record Proposer : Type 0 where
  pub id : ℤ
  pub quorum : ℕ
  pub n : ℕ
  pub crnd : Round
  pub adu : SlotId
  pub next_slot : SlotId
  pub promises : List (Option Promise)
  pub promise_count : ℕ
  pub phase_one_done : Bool
  pub accepts_out : List Accept
  pub requests_in : List Value
  pub leader : ℤ
  pub promise_slots : GoMap ℤ PromiseSlot
  pub min_slot : ℤ
  pub max_slot : ℤ
  pub is_first_phase : Bool
  pub sync_promise : Bool

-- `leader` is what the leader detector answers.
unfoldable pub new_proposer : ℤ → ℕ → ℤ → ℤ → Proposer
new_proposer id nr_of_nodes adu leader = record {
  id = id;
  quorum = nr_of_nodes / 2 + 1;
  n = nr_of_nodes;
  crnd = id;
  adu = adu;
  next_slot = pos 0;
  promises = replicate nr_of_nodes none;
  promise_count = 0;
  phase_one_done = false;
  accepts_out = [];
  requests_in = [];
  leader = leader;
  promise_slots = [];
  min_slot = pos 0;
  max_slot = pos 0;
  is_first_phase = true;
  sync_promise = false;
}

-- One round of the loop of `update_promise_slots`, up to its last `if`.
unfoldable pub merge_slot : Proposer → PromiseSlot → Proposer
merge_slot p slot = elim (lookup slot.id p.promise_slots) [
  | some prev_slot ↦
      if ltb_ℤ prev_slot.vrnd slot.vrnd
      then record p { promise_slots = insert slot.id slot p.promise_slots }
      else p
  | none ↦ record p {
    min_slot = if leb (length p.promise_slots) 0 then slot.id else p.min_slot;
    promise_slots = insert slot.id slot p.promise_slots;
  }
]

-- `if int(slot.ID) > p.max_slot`
unfoldable pub raise_max : Proposer → SlotId → Proposer
raise_max p id = if ltb_ℤ p.max_slot id then record p { max_slot = id } else p

unfoldable pub update_promise_slots : Proposer → List PromiseSlot → Proposer
unfolding merge_slot raise_max
update_promise_slots p [] = p
update_promise_slots p (slot ∷ l) = update_promise_slots (raise_max (merge_slot p slot) slot.id) l

-- the value for a slot: what was reported for it, or a no-op
unfoldable pub chosen_value : Option PromiseSlot → Value
chosen_value none = noop_value
chosen_value (some prm) = prm.vval

unfoldable pub make_accept : Proposer → ℤ → Accept
unfolding chosen_value
make_accept p slot_id = record {
  from = p.id;
  slot = slot_id;
  rnd = p.crnd;
  val = chosen_value (lookup slot_id p.promise_slots);
}

-- The loop of `create_accept_message` from `slot_id` on, with fuel.
unfoldable pub accepts_from : ℕ → Proposer → ℤ → List Accept
unfolding make_accept
accepts_from zero p slot_id = []
accepts_from (suc f) p slot_id =
    let rest = accepts_from f p (add_int slot_id (pos 1)) in
    let here = if ltb_ℤ p.adu slot_id then make_accept p slot_id ∷ rest else rest in
    if leb_ℤ slot_id p.max_slot then here else []

unfoldable pub create_accept_message : Proposer → List Accept
unfolding accepts_from
create_accept_message p =
    accepts_from (suc (suc (pos_part (p.max_slot -ℤ p.min_slot)))) p p.min_slot

-- `p.promises[from]`; `none` is an index out of range, which panics.
unfoldable pub promise_of : List (Option Promise) → ℤ → Option (Option Promise)
promise_of promises (pos i) = get_elem? promises i
promise_of promises (negsuc i) = none

-- Record a promise and its reports.
unfoldable pub store_promise : Proposer → Promise → Proposer
unfolding update_promise_slots
store_promise p prm =
    update_promise_slots (record p { promises = set p.promises (pos_part prm.from) (some prm) })
      (reported prm.slots)

-- What `handlePromise` does with a promise of the current round, by the entry of its sender.
unfoldable pub take_promise : Proposer → Promise → Option Promise → Proposer
unfolding store_promise
take_promise p prm (some prev_promise) =
    if ltb_ℤ prev_promise.rnd prm.rnd then store_promise p prm else p
take_promise p prm none =
    let q = store_promise p prm in record q { promise_count = q.promise_count + 1 }

-- The end of `handlePromise`. A nil slice and an empty one are the same list of accepts.
unfoldable pub check_quorum : Proposer → Proposer × List Accept × Bool
unfolding create_accept_message
check_quorum p =
    if leb p.quorum p.promise_count
    then (
      record p { sync_promise = true },
      (if leb 1 (length p.promise_slots) then create_accept_message p else []),
      true,
    )
    else (p, [], false)

-- `none` is a panic.
unfoldable pub handle_promise : Proposer → Promise → Option (Proposer × List Accept × Bool)
unfolding promise_of take_promise check_quorum
handle_promise p prm =
    if (prm.rnd == p.crnd) && not p.sync_promise
    then elim (promise_of p.promises prm.from) [
      | none ↦ none
      | some prev_promise ↦ some (check_quorum (take_promise p prm prev_promise))
    ]
    else some (p, [], false)

unfoldable pub increase_crnd : Proposer → Proposer
increase_crnd p = record p { crnd = add_int p.crnd (pos p.n) }

unfoldable pub start_phase_one : Proposer → Proposer × Prepare
unfolding increase_crnd
start_phase_one p =
    let q =
      increase_crnd
        (record p { phase_one_done = false; promises = replicate p.n none; promise_count = 0 }) in
    (q, record { from = q.id; slot = q.adu; crnd = q.crnd })

abbrev alpha : ℤ
alpha = pos 1

-- The accept that goes out, if one does.
send_first : Proposer → List Accept → List Value → Proposer × Option Accept
send_first p (acc ∷ accepts) requests =
    (record p { accepts_out = accepts; next_slot = add_int p.next_slot (pos 1) }, some acc)
send_first p [] (cval ∷ requests) = (
  record p { requests_in = requests; next_slot = add_int p.next_slot (pos 1) },
  some (record { from = p.id; slot = p.next_slot; rnd = p.crnd; val = cval }),
)
send_first p [] [] = (p, none)

unfoldable pub send_accept : Proposer → Proposer × Option Accept
unfolding send_first
send_accept p =
    if not (leb_ℤ p.next_slot (add_int p.adu alpha))
    then (p, none)
    else send_first p p.accepts_out p.requests_in

-- What the run loop of `Start` waits for, but for `stop`, which ends it.
pub data Event : Type 0 where
  promise_in : Promise → Event
  cval_in : Value → Event
  inc_dcd : Event
  progress_tick : Event
  trust : ℤ → Event

pub data Output : Type 0 where
  prepare_out : Prepare → Output
  accept_out : Accept → Output
  server_leader : ℤ → Output

abbrev accepts_sent : Proposer × Option Accept → Proposer × List Output
accepts_sent (p, none) = (p, [])
accepts_sent (p, some acc) = (p, accept_out acc ∷ [])

-- What follows `handlePromise` in the loop.
unfoldable pub after_promise : Proposer × List Accept × Bool → Proposer × List Output
unfolding send_accept
after_promise (p, accepts, false) = (p, [])
after_promise (p, accepts, true) = accepts_sent (
    send_accept (record p {
      next_slot = add_int p.adu (pos 1);
      phase_one_done = true;
      is_first_phase = false;
      accepts_out = accepts;
    }))

abbrev prepare_sent : Proposer × Prepare → Proposer × List Output
prepare_sent (p, prepare) = (p, prepare_out prepare ∷ [])

-- One round of the loop; `none` is a panic.
unfoldable pub step : Proposer → Event → Option (Proposer × List Output)
unfolding handle_promise after_promise send_accept start_phase_one
step p (promise_in prm) = elim (handle_promise p prm) [
  | none ↦ none
  | some r ↦ some (after_promise r)
]
step p (cval_in cval) =
    if not (p.id == p.leader)
    then some (p, [])
    else let q = record p { requests_in = p.requests_in ++ cval ∷ [] } in
      some (if not p.phase_one_done then (q, []) else accepts_sent (send_accept q))
step p inc_dcd =
    let q = record p { adu = add_int p.adu (pos 1) } in
    some (
      if not (p.id == p.leader)
      then (q, [])
      else if not p.phase_one_done
      then (q, [])
      else accepts_sent (send_accept q))
step p progress_tick = some (
    if (p.id == p.leader) && not p.phase_one_done
    then prepare_sent (start_phase_one p)
    else (p, []))
step p (trust leader) =
    let q = record p { leader = leader; sync_promise = false } in
    let (r, out) = prepare_sent (start_phase_one q) in
    some
      (if leader == p.id then (r, server_leader leader ∷ out) else (q, server_leader leader ∷ []))

-- The loop over a list of events; `sent` holds the outputs, those of the latest round first.
unfoldable pub run : Proposer → List Output → List Event → Option (Proposer × List Output)
run p sent [] = some (p, sent)
run p sent (e ∷ es) = elim (step p e) [ none ↦ none | some (q, out) ↦ run q (out ++ sent) es ]
