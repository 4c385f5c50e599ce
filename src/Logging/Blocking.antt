-- ===== src/Logging/Blocking.antt =====
-- lab3/logging/logger.go: when logging stops.
use multi_paxos_work_in_prog.Common.{
  ltb, ◌==◌, nat_eq, list_eq, true, false, List, [], ◌∷◌, ◌++◌, Option, none, some, ◌>>=◌, ◌≡◌,
  refl, arith, ap, sym, subst, ◌∙◌, Bool-cases, Option-cases, inl, inr,
}
use multi_paxos_work_in_prog.Common.Classes.{list_beq_iff}
use multi_paxos_work_in_prog.Common.GoMap.{lookup}
use multi_paxos_work_in_prog.Common.Text.{Text, codes}
use multi_paxos_work_in_prog.Logging.{
  Logger, log_cond, level, System, LogError, Line, Locks, write_line, log_system, log_network,
  log_to, log_line,
}
use multi_paxos_work_in_prog.Logging.Calls.{Call, call_log, run, passes, passes_level, after}

-- While the mutex of the system log is held, a call leaves it so, or waits.
abbrev StaysLocked : Option (Locks × List Line × Option LogError) → Type 0
StaysLocked none = Unit
StaysLocked (some (locks, lines, err)) = locks.sys_locked ≡ true

log_network-StaysLocked :
    (sys : System) (locks : Locks) (log : Logger) (cond msg : Text)
    → locks.sys_locked ≡ true
    → StaysLocked (log_network sys locks log cond msg)
unfolding log_network
log_network-StaysLocked sys locks log cond msg h = elim (Bool-cases locks.net_locked) [
  | inl held ↦ rw (held, log_network) tt
  | inr free ↦ rw (free, log_network) h
]

log_to-StaysLocked :
    (sys : System) (locks : Locks) (log : Logger) (dest cond msg : Text)
    → locks.sys_locked ≡ true
    → StaysLocked (log_to sys locks log dest cond msg)
unfolding log_to log_system
log_to-StaysLocked sys locks log dest cond msg h = elim (Bool-cases (dest == codes "system")) [
  | inl system ↦ rw (system, log_to, h) tt
  | inr other ↦ elim (Bool-cases (dest == codes "network")) [
    | inl network ↦ rw (other, network, log_to) (log_network-StaysLocked sys locks log cond msg h)
    | inr nowhere ↦ rw (other, nowhere, log_to) h
  ]
]

call_log-StaysLocked :
    (locks : Locks) (log : Logger) (c : Call)
    → locks.sys_locked ≡ true
    → StaysLocked (call_log locks log c)
unfolding log_line
call_log-StaysLocked locks log c h = elim (Option-cases (lookup c.cond log_cond)) [
  | inl unknown ↦ rw (unknown, log_line) h
  | inr (n, known) ↦ elim (Bool-cases (ltb (level (lookup log.cond log_cond)) n)) [
    | inl above ↦ rw (known, above, log_line) h
    | inr through ↦
        rw (known, through, log_line) (log_to-StaysLocked c.sys locks log c.dest c.cond c.msg h)
  ]
]

-- What a call that passes does.
call_log-passes :
    (locks : Locks) (log : Logger) (c : Call)
    → passes log c ≡ true
    → call_log locks log c ≡ log_to c.sys locks log c.dest c.cond c.msg
unfolding log_line
call_log-passes locks log c h = elim (Option-cases (lookup c.cond log_cond)) [
  | inl unknown ↦ absurd (cc (subst (λ o. passes_level log o ≡ true) unknown h))
  | inr (n, known) ↦
      let through : ltb (level (lookup log.cond log_cond)) n ≡ false =
        let p = subst (λ o. passes_level log o ≡ true) known h in ground arith in
      rw (known, through, log_line) refl
]

-- The call goes to the system log and is at a level that is let through.
abbrev pub ToSystem : Logger → Call → Type 0
ToSystem log c = (c.dest ≡ codes "system") × (passes log c ≡ true)

call_log-log_system :
    (locks : Locks) (log : Logger) (c : Call)
    → ToSystem log c
    → call_log locks log c ≡ log_system c.sys locks log c.cond c.msg
unfolding log_to
call_log-log_system locks log c (dest, p) =
    let system : (c.dest == codes "system") ≡ true =
      (list_beq_iff c.dest (codes "system")).1 dest in
    call_log-passes locks log c p ∙ rw (system, log_to) refl

waits_at_lock :
    (locks : Locks) (log : Logger) (c : Call)
    → locks.sys_locked ≡ true
    → ToSystem log c
    → call_log locks log c ≡ none
unfolding log_system
waits_at_lock locks log c h t = call_log-log_system locks log c t ∙ rw (h, log_system) refl

-- The system log does not open for the call.
abbrev pub FailsToOpen : Logger → Call → Type 0
FailsToOpen log c = c.sys.opens (c.sys.join log.log_dir log.system_log) ≡ false

open_fails-StaysLocked :
    (locks : Locks) (log : Logger) (c : Call)
    → ToSystem log c
    → FailsToOpen log c
    → StaysLocked (call_log locks log c)
unfolding log_system write_line
open_fails-StaysLocked locks log c t fails =
    subst (λ o. StaysLocked o) (sym (call_log-log_system locks log c t))
      (elim (Bool-cases locks.sys_locked) [
        | inl held ↦ rw (held, log_system) tt
        | inr free ↦ rw (free, log_system, fails, write_line) refl
      ])

locked_then_none :
    (o : Option (Locks × List Line × Option LogError)) (later : Locks → Option (Locks × List Line))
    → StaysLocked o
    → ((locks : Locks) → locks.sys_locked ≡ true → later locks ≡ none)
    → (o >>= after later) ≡ none
locked_then_none none later h g = refl
locked_then_none (some (locks, lines, err)) later h g = rw (g locks h) refl

run_locked :
    (log : Logger) (before rest : List Call) (c : Call)
    → ToSystem log c
    → (locks : Locks) → locks.sys_locked ≡ true
    → run locks log (before ++ c ∷ rest) ≡ none
unfolding run
run_locked log [] rest c t locks h =
    ap (λ o. o >>= after (λ locks'. run locks' log rest)) (waits_at_lock locks log c h t)
run_locked log (b ∷ before) rest c t locks h =
    locked_then_none (call_log locks log b) (λ locks'. run locks' log (before ++ c ∷ rest))
      (call_log-StaysLocked locks log b h) (run_locked log before rest c t)

-- When the system log does not open for one call at a level that is let through, no later such call
-- to the system log ever ends, whatever calls there are between them and whatever the system does
-- then: the mutex stays held.
pub open_failure_blocks :
    (locks : Locks) (log : Logger) (c : Call) (before rest : List Call) (later : Call)
    → ToSystem log c
    → FailsToOpen log c
    → ToSystem log later
    → run locks log (c ∷ before ++ later ∷ rest) ≡ none
unfolding run
open_failure_blocks locks log c before rest later t fails t' =
    locked_then_none (call_log locks log c) (λ locks'. run locks' log (before ++ later ∷ rest))
      (open_fails-StaysLocked locks log c t fails) (run_locked log before rest later t')
