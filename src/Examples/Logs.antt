-- ===== src/Examples/Logs.antt =====
-- Calls of a logger of lab3/logging.
use multi_paxos_work_in_prog.Common.{
  pos, nat_eq, list_eq, Bool, true, false, List, [], ◌∷◌, ◌++◌, none, some, ◌≡◌, refl,
}
use multi_paxos_work_in_prog.Common.Classes.{list_beq}
use multi_paxos_work_in_prog.Common.GoMap.{lookup}
use multi_paxos_work_in_prog.Common.Text.{Text, codes}
use multi_paxos_work_in_prog.Logging.{Logger, System}
use multi_paxos_work_in_prog.Logging.Calls.{Call, run}
use multi_paxos_work_in_prog.Logging.Blocking.{open_failure_blocks}
use multi_paxos_work_in_prog.Logging.Lines.{run-all_lines, all_lines, free_locks}

abbrev system : Bool → System
system opens = record {
  now = codes "12:00";
  join = λ dir name. dir ++ codes "/" ++ name;
  exists = λ name. true;
  makes_dir = λ name. true;
  opens = λ name. opens;
  writes = λ name. true;
}

abbrev logger : Logger
logger = record {
  log_dir = codes "logs";
  system_log = codes "systemLog_1.txt";
  network_log = codes "networkLog_1.txt";
  cond = codes "notice";
  print = false;
  node_id = pos 1;
  net_only = false;
}

abbrev call_at : Bool → Text → Call
call_at opens cond = record {
  sys = system opens;
  dest = codes "system";
  cond = cond;
  msg = codes "a line";
}

abbrev calls : List Call
calls =
    call_at true (codes "err") ∷ call_at true (codes "error") ∷ call_at true (codes "debug") ∷ []

run-all_lines_example : run free_locks logger calls ≡ some (free_locks, all_lines logger calls)
run-all_lines_example =
    run-all_lines logger calls
      (((λ f. refl), λ f. refl), (((λ f. refl), λ f. refl), (((λ f. refl), λ f. refl), tt)))

open_failure_blocks_example :
    run free_locks logger (call_at false (codes "error") ∷ [] ++ call_at true (codes "notice") ∷ [])
    ≡ none
unfolding lookup list_beq
open_failure_blocks_example =
    open_failure_blocks free_locks logger (call_at false (codes "error")) [] []
      (call_at true (codes "notice")) (refl, refl) refl (refl, refl)
