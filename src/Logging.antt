-- ===== src/Logging.antt =====
-- lab3/logging/logger.go: the loggers, the levels, and what the two mutexes let through. The file
-- system, the clock and `filepath.Join` are arguments; what is printed and written is the result.
pub mod Calls
pub mod Blocking
pub mod Lines
use multi_paxos_work_in_prog.Common.{
  ℕ, ◌+◌, ◌-◌, ltb, leb, ◌==◌, nat_eq, list_eq, ℤ, Bool, true, false, not, ◌&&◌, if◌then◌else◌,
  List, [], ◌∷◌, ◌++◌, map, Option, none, some, ◌>>=◌,
}
use multi_paxos_work_in_prog.Common.GoMap.{GoMap, lookup}
use multi_paxos_work_in_prog.Common.Text.{Text, codes, show_int}

pub record Logger : Type 0 where
  pub log_dir : Text
  pub system_log : Text
  pub network_log : Text
  pub cond : Text
  pub print : Bool
  pub node_id : ℤ
  pub net_only : Bool

-- `LogCond`
abbrev pub log_cond : GoMap Text ℕ
log_cond =
    (codes "emergency", 0)
    ∷ (codes "alert", 1)
    ∷ (codes "critical", 2)
    ∷ (codes "error", 3)
    ∷ (codes "warning", 4)
    ∷ (codes "notice", 5)
    ∷ (codes "information", 6)
    ∷ (codes "debug", 7)
    ∷ []

-- `LogCond[cond]`, 0 for a level that is not there
abbrev pub level : Option ℕ → ℕ
level none = 0
level (some n) = n

-- What the calls of the system do during a call.
pub record System : Type 0 where
  pub now : Text
  pub join : Text → Text → Text
  pub exists : Text → Bool
  pub makes_dir : Text → Bool
  pub opens : Text → Bool
  pub writes : Text → Bool

pub data LogError : Type 0 where
  unknown_cond no_dir no_file open_failed write_failed : LogError

-- A line on the console, or at the end of a file.
pub data Line : Type 0 where
  printed : Text → Line
  appended : Text → Text → Line

-- Which of the two mutexes are held.
pub record Locks : Type 0 where
  pub sys_locked : Bool
  pub net_locked : Bool

-- `strings.ToUpper`, on the letters of ASCII
abbrev upper : ℕ → ℕ
upper c = if leb 97 c && leb c 122 then c - 32 else c

unfoldable pub log_message : System → Text → Text → Text
log_message sys cond msg = sys.now ++ codes "  -  " ++ map upper cond ++ codes "  -  " ++ msg

abbrev pub when : Bool → Line → List Line
when true line = line ∷ []
when false line = []

-- The part between `Lock` and `Unlock`: the lines that it writes, its error, and whether the mutex
-- is held after it. Where the file does not open, the method returns without `Unlock`.
unfoldable pub write_line : System → Text → Text → List Line × Option LogError × Bool
write_line sys file line =
    if sys.opens file
    then (if sys.writes file
        then (appended file line ∷ [], none, false)
        else ([], some write_failed, false))
    else ([], some open_failed, true)

-- A call that waits for a mutex that is held is `none`.
unfoldable pub log_system :
    System → Locks → Logger → Text → Text → Option (Locks × List Line × Option LogError)
unfolding log_message write_line
log_system sys locks log cond msg =
    let line = log_message sys cond msg in
    let shown = when (log.print && not log.net_only) (printed line) in
    let (lines, err, held) = write_line sys (sys.join log.log_dir log.system_log) line in
    if locks.sys_locked
    then none
    else some (record locks { sys_locked = held }, shown ++ lines, err)

unfoldable pub log_network :
    System → Locks → Logger → Text → Text → Option (Locks × List Line × Option LogError)
unfolding log_message write_line
log_network sys locks log cond msg =
    let line = log_message sys cond msg in
    let shown = when log.print (printed line) in
    let (lines, err, held) = write_line sys (sys.join log.log_dir log.network_log) line in
    if locks.net_locked
    then none
    else some (record locks { net_locked = held }, shown ++ lines, err)

unfoldable pub log_to :
    System → Locks → Logger → Text → Text → Text → Option (Locks × List Line × Option LogError)
unfolding log_system log_network
log_to sys locks log dest cond msg =
    if dest == codes "system"
    then log_system sys locks log cond msg
    else if dest == codes "network"
    then log_network sys locks log cond msg
    else some (locks, [], none)

-- `Log`
unfoldable pub log_line :
    System → Locks → Logger → Text → Text → Text → Option (Locks × List Line × Option LogError)
unfolding log_to
log_line sys locks log dest cond msg = elim (lookup cond log_cond) [
  | none ↦ some (locks, [], some unknown_cond)
  | some n ↦
      if ltb (level (lookup log.cond log_cond)) n
      then some (locks, [], none)
      else log_to sys locks log dest cond msg
]

-- `SetLogDir`: whether it succeeds
unfoldable pub set_log_dir : System → Text → Logger → Option Logger
set_log_dir sys name log =
    if not (sys.exists name) && not (sys.makes_dir name)
    then none
    else some (record log { log_dir = name })

unfoldable pub node_name : Text → ℤ → Text
unfolding show_int
node_name name id = name ++ codes "_" ++ show_int id ++ codes ".txt"

unfoldable pub init_system_log : System → Text → Logger → Option Logger
unfolding node_name
init_system_log sys name log =
    let file = node_name name log.node_id in
    if sys.opens (sys.join log.log_dir file) then some (record log { system_log = file }) else none

unfoldable pub init_network_log : System → Text → Logger → Option Logger
unfolding node_name
init_network_log sys name log =
    let file = node_name name log.node_id in
    if sys.opens (sys.join log.log_dir file) then some (record log { network_log = file }) else none

-- the literal of `InitLogger` and the fields that it sets first
abbrev new_logger : Text → Bool → ℤ → Bool → Logger
new_logger cond print node_id notsys = record {
  log_dir = [];
  system_log = [];
  network_log = [];
  cond = cond;
  print = print;
  node_id = node_id;
  net_only = notsys;
}

-- The logger, or nothing where an error is returned.
unfoldable pub init_logger : System → Text → Text → Text → Text → Bool → ℤ → Bool → Option Logger
unfolding set_log_dir init_system_log init_network_log
init_logger sys log_dir system_log network_log cond print node_id notsys =
    set_log_dir sys log_dir (new_logger cond print node_id notsys)
    >>= init_system_log sys system_log
    >>= init_network_log sys network_log
    >>= λ made. elim (lookup cond log_cond) [
      | none ↦ none
      | some n ↦ some (record made { log_dir = log_dir })
    ]
