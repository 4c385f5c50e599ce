-- ===== src/Detector.antt =====
-- lab3/detector: the data of defs.go; the two detectors are the modules below this one.
pub mod Leader
pub mod Failure
use multi_paxos_work_in_prog.Common.{
  ℤ, negsuc, Bool, true, false, if◌then◌else◌, ◌++◌, Option, none, some,
}
use multi_paxos_work_in_prog.Common.Text.{Text, codes, show_int}

-- -1
abbrev pub unknown_id : ℤ
unknown_id = negsuc 0

pub record Heartbeat : Type 0 where
  pub from : ℤ
  pub to : ℤ
  pub request : Bool

unfoldable pub heartbeat_string : Heartbeat → Text
unfolding show_int
heartbeat_string h =
    if h.request
    then codes "Heartbeat request from " ++ show_int h.from ++ codes " to " ++ show_int h.to
    else codes "Heartbeat reply from " ++ show_int h.from ++ codes " to " ++ show_int h.to

-- `m[k]` of a `map[int]bool`
abbrev pub is_set : Option Bool → Bool
is_set none = false
is_set (some b) = b
