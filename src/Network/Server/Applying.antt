-- ===== src/Network/Server/Applying.antt =====
-- How `srvHandleDecidedValue` of lab6/network/server.go applies values, and which ones it leaves.
use multi_paxos_work_in_prog.Common.{
  ℕ, zero, suc, ◌+◌, ℤ, pos, int_eq, list_eq, nat_eq, Bool, if◌then◌else◌, List, [], ◌∷◌, ◌++◌, ◌≡◌,
  refl, ap, true, false, ◌⊎◌, inl, inr, Bool-cases, arith, length, length-append,
}
use mathlib.Core.List.{append-nil}
use multi_paxos_work_in_prog.Common.Int.{add_int}
use multi_paxos_work_in_prog.Common.GoMap.{GoMap}
use multi_paxos_work_in_prog.Bank.{Account}
use multi_paxos_work_in_prog.Paxos.{Value, Response, DecidedValue}
use multi_paxos_work_in_prog.Network.{
  Delivery, deliver_heartbeat, deliver_prepare, deliver_promise, deliver_accept, deliver_learn,
  deliver_client_value, increment_all_decided, msg_srv_out, write_to, close,
}
use multi_paxos_work_in_prog.Network.Server.{
  DistributedSrv, send_txn_response, execute, apply_decided, is_early, decided_from,
}

-- the calls of `IncrementAllDecidedUpTo`
abbrev pub increments : List Delivery → ℕ
increments [] = 0
increments (increment_all_decided ∷ o) = suc (increments o)
increments (_ ∷ o) = increments o

increments-append : (a b : List Delivery) → increments (a ++ b) ≡ increments a + increments b
increments-append [] b = omega arith
increments-append (increment_all_decided ∷ a) b = omega (arith, increments-append a b)
increments-append (deliver_heartbeat x ∷ a) b = increments-append a b
increments-append (deliver_prepare x ∷ a) b = increments-append a b
increments-append (deliver_promise x ∷ a) b = increments-append a b
increments-append (deliver_accept x ∷ a) b = increments-append a b
increments-append (deliver_learn x ∷ a) b = increments-append a b
increments-append (deliver_client_value x ∷ a) b = increments-append a b
increments-append (msg_srv_out x ∷ a) b = increments-append a b
increments-append (write_to x y ∷ a) b = increments-append a b
increments-append (close x ∷ a) b = increments-append a b

-- what does not change when a response is sent
record SameButConns (s t : DistributedSrv) : Type 0 where
  id : t.id ≡ s.id
  cur_leader : t.cur_leader ≡ s.cur_leader
  adu : t.adu ≡ s.adu
  usr_accnt : t.usr_accnt ≡ s.usr_accnt
  dcd_val_in_list : t.dcd_val_in_list ≡ s.dcd_val_in_list

send_txn_response-SameButConns :
    (eof : Bool) (s : DistributedSrv) (r : Response)
    → SameButConns s (send_txn_response eof s r).0 × (increments (send_txn_response eof s r).1 ≡ 0)
unfolding send_txn_response
send_txn_response-SameButConns eof s r = ground arith

-- The effect of one value on the accounts.
abbrev pub accounts_after : GoMap ℤ Account → Value → GoMap ℤ Account
accounts_after accounts v = if v.noop then accounts else (execute accounts v).0

pub record Applied (s : DistributedSrv) (d : DecidedValue) (r : DistributedSrv × List Delivery)
    : Type 0 where
  pub adu : r.0.adu ≡ add_int s.adu (pos 1)
  pub usr_accnt : r.0.usr_accnt ≡ accounts_after s.usr_accnt d.value
  pub dcd_val_in_list : r.0.dcd_val_in_list ≡ s.dcd_val_in_list
  pub once : increments r.1 ≡ 1

pub apply_decided-Applied :
    (eof : ℤ → Bool) (s : DistributedSrv) (d : DecidedValue) → Applied s d (apply_decided eof s d)
unfolding apply_decided
apply_decided-Applied eof s d =
    let sent =
      send_txn_response (eof s.adu) (record s { usr_accnt = (execute s.usr_accnt d.value).0 })
        (execute s.usr_accnt d.value).1 in
    ground (
      arith,
      send_txn_response-SameButConns (eof s.adu)
          (record s { usr_accnt = (execute s.usr_accnt d.value).0 })
          (execute s.usr_accnt d.value).1,
      increments-append sent.1 (increment_all_decided ∷ []),
    )

-- `adu` after `k` increments
abbrev pub advance : ℕ → ℤ → ℤ
advance zero a = a
advance (suc k) a = advance k (add_int a (pos 1))

pub record InStep (s : DistributedSrv) (waiting : ℕ) (r : DistributedSrv × List Delivery)
    : Type 0 where
  pub adu : r.0.adu ≡ advance (increments r.1) s.adu
  pub kept : increments r.1 + length r.0.dcd_val_in_list ≡ waiting

pub decided_from-InStep :
    (eof : ℤ → Bool) (s : DistributedSrv) (d : DecidedValue) (l : List DecidedValue)
    → InStep s (suc (length l)) (decided_from eof s d l)
unfolding decided_from
decided_from-InStep eof s d [] = ground (arith, apply_decided-Applied eof s d)
decided_from-InStep eof s d (x ∷ l) =
    let a = apply_decided-Applied eof s d in
    let i = decided_from-InStep eof (apply_decided eof s d).0 x l in
    ground (
      arith,
      a,
      i,
      length-append (x ∷ l) (d ∷ []),
      increments-append (apply_decided eof s d).1
          (decided_from eof (apply_decided eof s d).0 x l).1,
    )

-- every value applied, in the order of the list
abbrev pub apply_all :
    (ℤ → Bool) → DistributedSrv → List DecidedValue → DistributedSrv × List Delivery
apply_all eof s [] = (s, [])
apply_all eof s (d ∷ l) =
    let (s', out) = apply_decided eof s d in
    let (s'', outs) = apply_all eof s' l in (s'', out ++ outs)

-- Each value is due when its turn comes.
abbrev pub AllDue : (ℤ → Bool) → DistributedSrv → List DecidedValue → Type 0
AllDue eof s [] = Unit {0}
AllDue eof s (d ∷ l) = (is_early s d ≡ false) × AllDue eof (apply_decided eof s d).0 l

-- Of the values in `come`, all are applied and none waits; or those in front of the first one that
-- comes too early are, and that one waits behind the others.
abbrev pub Splits :
    (ℤ → Bool) → DistributedSrv → (come applied waiting : List DecidedValue) → Type 0
Splits eof s come applied waiting =
    ((come ≡ applied) × (waiting ≡ []))
    ⊎ ((x : DecidedValue) × (rest : List DecidedValue) × (come ≡ applied ++ x ∷ rest)
        × (is_early (apply_all eof s applied).0 x ≡ true)
        × (waiting ≡ rest ++ x ∷ []))

pub record Handled (eof : ℤ → Bool) (s : DistributedSrv) (come : List DecidedValue)
    (r : DistributedSrv × List Delivery) : Type 0 where
  pub applied : List DecidedValue
  pub waiting : List DecidedValue
  pub due : AllDue eof s applied
  pub splits : Splits eof s come applied waiting
  pub result : r ≡ (
    record (apply_all eof s applied).0 { dcd_val_in_list = waiting },
    (apply_all eof s applied).1,
  )

Splits-next :
    (eof : ℤ → Bool) (s : DistributedSrv) (d : DecidedValue)
    (come applied waiting : List DecidedValue)
    → Splits eof (apply_decided eof s d).0 come applied waiting
    → Splits eof s (d ∷ come) (d ∷ applied) waiting
Splits-next eof s d come applied waiting (inl (all, none_left)) =
    inl (ap (λ l. d ∷ l) all, none_left)
Splits-next eof s d come applied waiting (inr (x, rest, at, early, back)) =
    inr (x, rest, ap (λ l. d ∷ l) at, early, back)

pub decided_from-Handled :
    (eof : ℤ → Bool) (s : DistributedSrv) (d : DecidedValue) (l : List DecidedValue)
    → Handled eof s (d ∷ l) (decided_from eof s d l)
unfolding decided_from
decided_from-Handled eof s d [] = elim (Bool-cases (is_early s d)) [
  | inl early ↦ record {
    applied = [];
    waiting = d ∷ [];
    due = tt;
    splits = inr (d, [], refl, early, refl);
    result = rw early refl;
  }
  | inr due ↦ record {
    applied = d ∷ [];
    waiting = [];
    due = (due, tt);
    splits = inl (refl, refl);
    result = rw (due, append-nil (apply_decided eof s d).1) refl;
  }
]
decided_from-Handled eof s d (x ∷ l) = elim (Bool-cases (is_early s d)) [
  | inl early ↦ record {
    applied = [];
    waiting = (x ∷ l) ++ d ∷ [];
    due = tt;
    splits = inr (d, x ∷ l, refl, early, refl);
    result = rw early refl;
  }
  | inr due ↦
      let (s', out) = apply_decided eof s d in
      let later = decided_from-Handled eof s' x l in
      record {
        applied = d ∷ later.applied;
        waiting = later.waiting;
        due = (due, later.due);
        splits = Splits-next eof s d (x ∷ l) later.applied later.waiting later.splits;
        result =
            rw due (ap (λ (r : DistributedSrv × List Delivery). (r.0, out ++ r.1)) later.result);
      }
]
