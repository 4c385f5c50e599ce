-- ===== src/Logging/Lines.antt =====
-- lab3/logging/logger.go: which lines are written.
use multi_paxos_work_in_prog.Common.{
  ltb, ◌==◌, nat_eq, list_eq, true, false, not, ◌&&◌, if◌then◌else◌, List, [], ◌∷◌, ◌++◌, All,
  Option, none, some, ◌>>=◌, ◌≡◌, refl, ap, ◌∙◌, Bool-cases, Option-cases, inl, inr,
}
use multi_paxos_work_in_prog.Common.GoMap.{lookup}
use multi_paxos_work_in_prog.Common.Text.{Text, codes}
use multi_paxos_work_in_prog.Logging.{
  Logger, log_cond, level, LogError, unknown_cond, Line, printed, appended, Locks, log_message,
  when, write_line, log_system, log_network, log_to, log_line,
}
use multi_paxos_work_in_prog.Logging.Calls.{Call, call_log, run, passes, after}

-- While files open and take writes.
abbrev pub Works : Call → Type 0
Works c = ((file : Text) → c.sys.opens file ≡ true) × ((file : Text) → c.sys.writes file ≡ true)

-- What a call that is let through adds, where everything works.
abbrev pub lines_of : Logger → Call → List Line
lines_of log c =
    let line = log_message c.sys c.cond c.msg in
    if c.dest == codes "system"
    then when (log.print && not log.net_only) (printed line)
      ++ appended (c.sys.join log.log_dir log.system_log) line ∷ []
    else if c.dest == codes "network"
    then when log.print (printed line)
      ++ appended (c.sys.join log.log_dir log.network_log) line ∷ []
    else []

abbrev pub all_lines : Logger → List Call → List Line
all_lines log [] = []
all_lines log (c ∷ cs) = (if passes log c then lines_of log c else []) ++ all_lines log cs

-- No mutex is held.
abbrev pub free_locks : Locks
free_locks = record { sys_locked = false; net_locked = false }

log_to-lines_of :
    (log : Logger) (c : Call)
    → Works c
    → log_to c.sys free_locks log c.dest c.cond c.msg ≡ some (free_locks, lines_of log c, none)
unfolding log_to log_system log_network write_line
log_to-lines_of log c w = elim (Bool-cases (c.dest == codes "system")) [
  | inl system ↦
      let file = c.sys.join log.log_dir log.system_log in
      rw (system, log_to, log_system, write_line, w.0 file, w.1 file) refl
  | inr other ↦ elim (Bool-cases (c.dest == codes "network")) [
    | inl network ↦
        let file = c.sys.join log.log_dir log.network_log in
        rw (other, network, log_to, log_network, write_line, w.0 file, w.1 file) refl
    | inr nowhere ↦ rw (other, nowhere, log_to) refl
  ]
]

call_log-lines_of :
    (log : Logger) (c : Call)
    → Works c
    → (err : Option LogError) × (call_log free_locks log c
        ≡ some (free_locks, (if passes log c then lines_of log c else []), err))
unfolding log_line
call_log-lines_of log c w = elim (Option-cases (lookup c.cond log_cond)) [
  | inl unknown ↦ (some unknown_cond, rw (unknown, log_line) refl)
  | inr (n, known) ↦ elim (Bool-cases (ltb (level (lookup log.cond log_cond)) n)) [
    | inl above ↦ (none, rw (known, above, log_line) refl)
    | inr through ↦ (none, rw (known, through, log_line, log_to-lines_of log c w) refl)
  ]
]

-- While the files open and take writes, no call waits, and the lines on the console and in the files
-- are those of exactly the calls whose level is known and not above the logger's own, in order: a
-- call at an unknown level leaves none.
pub run-all_lines :
    (log : Logger) (cs : List Call)
    → All Works cs
    → run free_locks log cs ≡ some (free_locks, all_lines log cs)
unfolding run
run-all_lines log [] w = refl
run-all_lines log (c ∷ cs) w =
    let (err, e) = call_log-lines_of log c w.0 in
    ap (λ o. o >>= after (λ locks'. run locks' log cs)) e
    ∙ ap (λ o. o >>= λ y. some (y.0, (if passes log c then lines_of log c else []) ++ y.1))
        (run-all_lines log cs w.1)
