-- ===== src/Bank.antt =====
-- lab6/bank/bank.go: accounts and the transactions on them.
pub mod Balance
use multi_paxos_work_in_prog.Common.{
  ℤ, pos, negsuc, ltb_ℤ, leb_ℤ, ◌==◌, int_eq, ◌||◌, nat_eq, list_eq, if◌then◌else◌, ◌++◌, [],
}
use multi_paxos_work_in_prog.Common.Int.{add_int, sub_int}
use multi_paxos_work_in_prog.Common.Text.{Text, codes, show_int}

-- `Operation` is an `int`, so it has other values than the three constants.
abbrev pub Operation : Type 0
Operation = ℤ

abbrev pub balance_op : Operation
balance_op = pos 0

abbrev pub deposit : Operation
deposit = pos 1

abbrev pub withdrawal : Operation
withdrawal = pos 2

-- `ops[o]` of an operation within its range
op_name : Operation → Text
op_name o =
    if o == pos 0
    then codes "Balance"
    else if o == pos 1
    then codes "Deposit"
    else codes "Withdrawal"

unfoldable pub operation_string : Operation → Text
unfolding op_name show_int
operation_string o =
    if ltb_ℤ o (pos 0) || ltb_ℤ (pos 2) o
    then codes "Unknow operation (" ++ show_int o ++ codes ")"
    else op_name o

pub record Transaction : Type 0 where
  pub op : Operation
  pub amount : ℤ

-- `%d` of an `Operation` prints the number.
unfoldable pub transaction_string : Transaction → Text
unfolding operation_string show_int
transaction_string t =
    if t.op == balance_op
    then codes "Balance transaction"
    else if (t.op == deposit) || (t.op == withdrawal)
    then operation_string t.op
      ++ codes " transaction with amount "
      ++ show_int t.amount
      ++ codes " NOK"
    else codes "Unknown transaction type (" ++ show_int t.op ++ codes ")"

pub record TransactionResult : Type 0 where
  pub account_num : ℤ
  pub balance : ℤ
  pub error_string : Text

unfoldable pub transaction_result_string : TransactionResult → Text
unfolding show_int
transaction_result_string tr =
    if tr.error_string == []
    then codes "Transaction OK. Account: "
      ++ show_int tr.account_num
      ++ codes ". Balance: "
      ++ show_int tr.balance
      ++ codes " NOK"
    else codes "Transaction error for account "
      ++ show_int tr.account_num
      ++ codes ". Error: "
      ++ tr.error_string

pub record Account : Type 0 where
  pub number : ℤ
  pub balance : ℤ

negative_deposit : ℤ → Text
negative_deposit amount =
    codes "Can't deposit negative amount (" ++ show_int amount ++ codes " NOK)"

not_enough : ℤ → ℤ → Text
not_enough balance amount =
    codes "Not enough funds for withdrawal. Balance: "
    ++ show_int balance
    ++ codes " NOK - Requested "
    ++ show_int amount
    ++ codes " NOK"

-- The `switch` of `Process`: the balance after it, and `err`.
unfoldable pub process_switch : Account → Transaction → ℤ × Text
unfolding negative_deposit not_enough
process_switch a txn =
    if txn.op == balance_op
    then (a.balance, [])
    else if txn.op == deposit
    then (if ltb_ℤ txn.amount (pos 0)
        then (a.balance, negative_deposit txn.amount)
        else (add_int a.balance txn.amount, []))
    else if txn.op == withdrawal
    then (if leb_ℤ (pos 0) (sub_int a.balance txn.amount)
        then (sub_int a.balance txn.amount, [])
        else (a.balance, not_enough a.balance txn.amount))
    else (a.balance, transaction_string txn)

unfoldable pub process : Account → Transaction → Account × TransactionResult
unfolding process_switch
process a txn =
    let (balance, err) = process_switch a txn in
    (
      record a { balance = balance },
      record { account_num = a.number; balance = balance; error_string = err },
    )

unfoldable pub account_string : Account → Text
unfolding show_int
account_string a =
    codes "Account " ++ show_int a.number ++ codes ": " ++ show_int a.balance ++ codes " NOK"
