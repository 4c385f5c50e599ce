-- ===== src/Bank/Balance.antt =====
-- What `Process` of lab6/bank/bank.go does to balances.
use multi_paxos_work_in_prog.Common.{
  ℤ, pos, ◌≤ℤ◌, ◌<ℤ◌, ◌+ℤ◌, ◌-ℤ◌, ◌≡◌, ◌≢◌, arith, [], int_laws, int_eq, int_beq_iff, ◌↔◌,
}
use multi_paxos_work_in_prog.Common.Int.{
  InRange, int_beq, add_int_lem, add_int_over, sub_int_lem, add_int-InRange, sub_int-InRange,
}
use multi_paxos_work_in_prog.Bank.{
  Account, Transaction, process, balance_op, deposit, withdrawal, transaction_string,
}

-- a balance that is an `int` and not below zero
abbrev pub Solvent : Account → Type 0
Solvent a = (pos 0 ≤ℤ a.balance) × InRange a.balance

-- From a balance that is not negative no transaction leaves a negative one, if a deposit does not
-- pass the largest `int`.
pub process-Solvent :
    (a : Account) (txn : Transaction)
    → Solvent a
    → (txn.op ≡ deposit → InRange (a.balance +ℤ txn.amount))
    → Solvent (process a txn).0
unfolding process
process-Solvent a txn s fits = ground (
  arith,
  int_beq_iff txn.op deposit,
  add_int_lem a.balance txn.amount,
  add_int-InRange a.balance txn.amount,
  sub_int-InRange a.balance txn.amount,
  add_nonneg a.balance txn.amount,
)
  where
    add_nonneg : (b m : ℤ) → pos 0 ≤ℤ b → pos 0 ≤ℤ m → pos 0 ≤ℤ b +ℤ m
    add_nonneg b m h k = omega int_laws

-- A transaction that reports an error leaves the account as it was.
process_error_unchanged :
    (a : Account) (txn : Transaction) → (process a txn).1.error_string ≢ [] → (process a txn).0 ≡ a
unfolding process
process_error_unchanged a txn h = ground arith

-- what the code refuses
pub data Refused (a : Account) (txn : Transaction) : Type 0 where
  negative : txn.op ≡ deposit → txn.amount <ℤ pos 0 → Refused a txn
  short : txn.op ≡ withdrawal → a.balance <ℤ txn.amount → Refused a txn
  unknown : txn.op ≢ balance_op → txn.op ≢ deposit → txn.op ≢ withdrawal → Refused a txn

-- A withdrawal's difference is an `int`.
abbrev pub IsExact : Account → Transaction → Type 0
IsExact a txn = txn.op ≡ withdrawal → InRange (a.balance -ℤ txn.amount)

below : (b m : ℤ) → b -ℤ m <ℤ pos 0 → b <ℤ m
below b m h = omega int_laws

below_zero : (b m : ℤ) → b <ℤ m → b -ℤ m <ℤ pos 0
below_zero b m h = omega int_laws

error→Refused :
    (a : Account) (txn : Transaction)
    → IsExact a txn
    → (process a txn).1.error_string ≢ []
    → Refused a txn
unfolding process transaction_string
error→Refused a txn exact h = grind (
  arith,
  int_beq_iff,
  negative,
  short,
  unknown,
  sub_int_lem a.balance txn.amount,
  below a.balance txn.amount,
)

Refused→error :
    (a : Account) (txn : Transaction)
    → IsExact a txn
    → Refused a txn
    → (process a txn).1.error_string ≢ []
unfolding process transaction_string
Refused→error a txn exact (negative o h) =
    ground (arith, int_beq_iff txn.op deposit, int_beq_iff txn.op balance_op)
Refused→error a txn exact (short o h) = ground (
  arith,
  int_beq_iff txn.op withdrawal,
  int_beq_iff txn.op deposit,
  int_beq_iff txn.op balance_op,
  sub_int_lem a.balance txn.amount (exact o),
  below_zero a.balance txn.amount h,
)
Refused→error a txn exact (unknown n0 n1 n2) = ground (
  arith,
  int_beq_iff txn.op withdrawal,
  int_beq_iff txn.op deposit,
  int_beq_iff txn.op balance_op,
)

-- If the difference that a withdrawal makes is in the range of `int`, an error is reported exactly
-- for a negative deposit, a withdrawal of more than the balance, and an operation that is none of
-- the three.
pub process_error-Refused :
    (a : Account) (txn : Transaction)
    → IsExact a txn
    → ((process a txn).1.error_string ≢ []) ↔ Refused a txn
process_error-Refused a txn exact = (error→Refused a txn exact, Refused→error a txn exact)

-- what a transaction that is not refused does to the balance
abbrev pub Moves : Account → Transaction → Account → Type 0
Moves a txn b =
    (txn.op ≡ deposit → b.balance ≡ a.balance +ℤ txn.amount)
    × (txn.op ≡ withdrawal → (b.balance ≡ a.balance -ℤ txn.amount) × (txn.amount ≤ℤ a.balance))
    × (txn.op ≡ balance_op → b.balance ≡ a.balance)
    × (b.number ≡ a.number)

-- Without an error, and when no sum leaves the range of `int`, a deposit adds the amount, a
-- withdrawal takes it off and was covered, and a balance query changes nothing.
pub process_ok-Moves :
    (a : Account) (txn : Transaction)
    → InRange (a.balance +ℤ txn.amount)
    → InRange (a.balance -ℤ txn.amount)
    → (process a txn).1.error_string ≡ []
    → Moves a txn (process a txn).0
unfolding process
process_ok-Moves a txn up down ok = ground (
  arith,
  int_beq_iff txn.op withdrawal,
  int_beq_iff txn.op deposit,
  int_beq_iff txn.op balance_op,
  add_int_lem a.balance txn.amount up,
  sub_int_lem a.balance txn.amount down,
  covers a.balance txn.amount,
)
  where
    covers : (b m : ℤ) → pos 0 ≤ℤ b -ℤ m → m ≤ℤ b
    covers b m h = omega int_laws

-- From a balance that is not negative, a withdrawal of a negative amount is accepted and makes the
-- balance larger, if the result is in the range of `int`.
pub withdraw_negative :
    (a : Account) (m : ℤ)
    → Solvent a
    → m <ℤ pos 0
    → InRange (a.balance -ℤ m)
    → let (b, r) = process a (record { op = withdrawal; amount = m }) in
      (r.error_string ≡ []) × (a.balance <ℤ b.balance)
unfolding process int_beq
withdraw_negative a m s neg fits =
    ground (arith, sub_int_lem a.balance m fits, larger a.balance m, nonneg a.balance m)
  where
    larger : (b m : ℤ) → m <ℤ pos 0 → b <ℤ b -ℤ m
    larger b m h = omega int_laws

    nonneg : (b m : ℤ) → m <ℤ pos 0 → pos 0 ≤ℤ b → pos 0 ≤ℤ b -ℤ m
    nonneg b m h k = omega int_laws

-- From a balance that is not negative, a deposit past the largest `int` is accepted and leaves a
-- negative balance.
pub deposit_overflow :
    (a : Account) (m : ℤ)
    → Solvent a
    → pos 0 ≤ℤ m
    → InRange m
    → ¬ InRange (a.balance +ℤ m)
    → let (b, r) = process a (record { op = deposit; amount = m }) in
      (r.error_string ≡ []) × (b.balance <ℤ pos 0)
unfolding process int_beq
deposit_overflow a m s nonneg small over =
    ground (arith, add_int_over a.balance m s.0 s.1 nonneg small over)
