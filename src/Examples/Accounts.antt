-- ===== src/Examples/Accounts.antt =====
-- Transactions on accounts of lab6/bank/bank.go.
use multi_paxos_work_in_prog.Common.{pos, ◌+ℤ◌, ◌-ℤ◌, [], ◌≡◌, refl, arith, ◌↔◌, ◌≢◌}
use multi_paxos_work_in_prog.Common.Int.{int_beq}
use multi_paxos_work_in_prog.Bank.{Account, Transaction, process, deposit, withdrawal}
use multi_paxos_work_in_prog.Bank.Balance.{
  Solvent, Refused, Moves, process-Solvent, process_error-Refused, process_ok-Moves,
}

abbrev account : Account
account = record { number = pos 7; balance = pos 100 }

abbrev pay_in : Transaction
pay_in = record { op = deposit; amount = pos 50 }

abbrev too_much : Transaction
too_much = record { op = withdrawal; amount = pos 150 }

process-Solvent_example : Solvent (process account pay_in).0
unfolding ◌+ℤ◌
process-Solvent_example = process-Solvent account pay_in (omega arith) (λ d. omega arith)

pay_in_accepted : (process account pay_in).1.error_string ≡ []
unfolding process int_beq
pay_in_accepted = refl

process_ok-Moves_example : Moves account pay_in (process account pay_in).0
unfolding ◌+ℤ◌ ◌-ℤ◌
process_ok-Moves_example =
    process_ok-Moves account pay_in (omega arith) (omega arith) pay_in_accepted

process_error-Refused_example :
    ((process account too_much).1.error_string ≢ []) ↔ Refused account too_much
unfolding ◌-ℤ◌
process_error-Refused_example = process_error-Refused account too_much (λ w. omega arith)
