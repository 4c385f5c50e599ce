-- ===== src/Logging/Calls.antt =====
-- lab3/logging/logger.go: calls of `Log` one after the other.
use multi_paxos_work_in_prog.Common.{
  ℕ, ltb, nat_eq, list_eq, Bool, false, not, List, [], ◌∷◌, ◌++◌, Option, none, some, ◌>>=◌,
}
use multi_paxos_work_in_prog.Common.GoMap.{lookup}
use multi_paxos_work_in_prog.Common.Text.{Text}
use multi_paxos_work_in_prog.Logging.{
  Logger, log_cond, level, System, LogError, Line, Locks, log_line,
}

-- A call of `Log`.
pub record Call : Type 0 where
  pub sys : System
  pub dest : Text
  pub cond : Text
  pub msg : Text

abbrev pub call_log : Locks → Logger → Call → Option (Locks × List Line × Option LogError)
call_log locks log c = log_line c.sys locks log c.dest c.cond c.msg

-- Calls one after the other: the lines of all of them. A call that waits is `none`.
unfoldable pub run : Locks → Logger → List Call → Option (Locks × List Line)
unfolding log_line
run locks log [] = some (locks, [])
run locks log (c ∷ cs) = call_log locks log c >>= λ (locks', lines, err).
    run locks' log cs >>= λ (locks'', more). some (locks'', lines ++ more)

-- The call is at a known level that the logger's own level lets through.
abbrev pub passes_level : Logger → Option ℕ → Bool
passes_level log none = false
passes_level log (some n) = not (ltb (level (lookup log.cond log_cond)) n)

abbrev pub passes : Logger → Call → Bool
passes log c = passes_level log (lookup c.cond log_cond)

-- the lines of a call in front of those of the calls after it
abbrev pub after :
    (Locks → Option (Locks × List Line))
    → Locks × List Line × Option LogError
    → Option (Locks × List Line)
after later x = later x.0 >>= λ y. some (y.0, x.1 ++ y.1)
