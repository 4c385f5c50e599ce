-- ===== src/Paxos.antt =====
-- lab6/multipaxos: the data of defs.go; the three roles are the modules below this one.
pub mod Acceptor
pub mod Proposer
pub mod Learner
use multi_paxos_work_in_prog.Common.{
  ℤ, pos, negsuc, Bool, true, false, ◌==◌, int_eq, if◌then◌else◌, ◌++◌, List, [], ◌∷◌, Option, none,
  some,
}
use multi_paxos_work_in_prog.Common.Text.{Text, codes, show_int}
use multi_paxos_work_in_prog.Bank.{
  Transaction, TransactionResult, transaction_string, transaction_result_string, balance_op,
}

abbrev pub SlotId : Type 0
SlotId = ℤ

abbrev pub Round : Type 0
Round = ℤ

-- -1
abbrev pub no_round : Round
no_round = negsuc 0

pub record Value : Type 0 where
  pub client_id : Text
  pub client_seq : ℤ
  pub noop : Bool
  pub account_num : ℤ
  pub txn : Transaction

-- `Value{}` and `Value{Noop: true}`
abbrev pub zero_value : Value
zero_value = record {
  client_id = [];
  client_seq = pos 0;
  noop = false;
  account_num = pos 0;
  txn = record { op = balance_op; amount = pos 0 };
}

abbrev pub noop_value : Value
noop_value = record zero_value { noop = true }

unfoldable pub value_string : Value → Text
unfolding show_int transaction_string
value_string v =
    if v.noop
    then codes "No-op value"
    else codes "Value{ClientID: "
      ++ v.client_id
      ++ codes ", ClientSeq: "
      ++ show_int v.client_seq
      ++ codes ", AccountNr: "
      ++ show_int v.account_num
      ++ codes ", Txn: "
      ++ transaction_string v.txn
      ++ codes "}"

pub record Response : Type 0 where
  pub client_id : Text
  pub client_seq : ℤ
  pub txn_res : TransactionResult

unfoldable pub response_string : Response → Text
unfolding show_int transaction_result_string
response_string r =
    codes "Response{ClientID: "
    ++ r.client_id
    ++ codes ", ClientSeq: "
    ++ show_int r.client_seq
    ++ codes ", TxnRes: "
    ++ transaction_result_string r.txn_res
    ++ codes "}"

pub record Prepare : Type 0 where
  pub from : ℤ
  pub slot : SlotId
  pub crnd : Round

-- What an acceptor voted for in the slot `id`, and in which round.
pub record PromiseSlot : Type 0 where
  pub id : SlotId
  pub vrnd : Round
  pub vval : Value

-- `none` is the nil slice.
pub record Promise : Type 0 where
  pub to : ℤ
  pub from : ℤ
  pub rnd : Round
  pub slots : Option (List PromiseSlot)

abbrev pub zero_promise : Promise
zero_promise = record { to = pos 0; from = pos 0; rnd = pos 0; slots = none }

-- what a `range` over the slice visits
abbrev pub reported : Option (List PromiseSlot) → List PromiseSlot
reported none = []
reported (some l) = l

pub record Accept : Type 0 where
  pub from : ℤ
  pub slot : SlotId
  pub rnd : Round
  pub val : Value

pub record Learn : Type 0 where
  pub from : ℤ
  pub slot : SlotId
  pub rnd : Round
  pub val : Value

abbrev pub zero_learn : Learn
zero_learn = record { from = pos 0; slot = pos 0; rnd = pos 0; val = zero_value }

pub record DecidedValue : Type 0 where
  pub slot_id : SlotId
  pub value : Value

unfoldable pub prepare_string : Prepare → Text
unfolding show_int
prepare_string p =
    codes "Prepare{From: "
    ++ show_int p.from
    ++ codes ", Slot: "
    ++ show_int p.slot
    ++ codes ", Crnd: "
    ++ show_int p.crnd
    ++ codes "}"

unfoldable pub accept_string : Accept → Text
unfolding show_int value_string
accept_string a =
    codes "Accept{From: "
    ++ show_int a.from
    ++ codes ", Slot: "
    ++ show_int a.slot
    ++ codes ",  Rnd: "
    ++ show_int a.rnd
    ++ codes ", Val: "
    ++ value_string a.val
    ++ codes "}"

unfoldable pub learn_string : Learn → Text
unfolding show_int value_string
learn_string l =
    codes "Learn{From: "
    ++ show_int l.from
    ++ codes ", Slot: "
    ++ show_int l.slot
    ++ codes ", Rnd: "
    ++ show_int l.rnd
    ++ codes ", Val: "
    ++ value_string l.val
    ++ codes "}"

-- `%v` of a `PromiseSlot` and of a slice of them
slot_string : PromiseSlot → Text
unfolding show_int value_string
slot_string s =
    codes "{"
    ++ show_int s.id
    ++ codes " "
    ++ show_int s.vrnd
    ++ codes " "
    ++ value_string s.vval
    ++ codes "}"

slots_string : List PromiseSlot → Text
unfolding slot_string
slots_string [] = []
slots_string (s ∷ []) = slot_string s
slots_string (s ∷ t ∷ l) = slot_string s ++ codes " " ++ slots_string (t ∷ l)

promise_slots_string : Option (List PromiseSlot) → Text
unfolding slots_string
promise_slots_string none = codes "No values reported (nil slice)"
promise_slots_string (some []) = codes "No values reported (empty slice)"
promise_slots_string (some (s ∷ l)) = codes "Slots: [" ++ slots_string (s ∷ l) ++ codes "]"

unfoldable pub promise_string : Promise → Text
unfolding show_int promise_slots_string
promise_string p =
    codes "Promise{To: "
    ++ show_int p.to
    ++ codes ", From: "
    ++ show_int p.from
    ++ codes ", Rnd: "
    ++ show_int p.rnd
    ++ codes ", "
    ++ promise_slots_string p.slots
    ++ codes "}"
