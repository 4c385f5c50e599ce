-- ===== src/Paxos/Proposer/Reuse.antt =====
-- A late promise after a change of leader (lab6/multipaxos/proposer.go, lines 127-167 and 203-231).
use multi_paxos_work_in_prog.Common.{
  ◌+◌, ◌≤◌, ◌<◌, ◌^◌, ℤ, pos, pos_part, true, false, [], none, some, ◌≡◌, int_eq, set,
}
use multi_paxos_work_in_prog.Common.Int.{add_int, InRange}
use multi_paxos_work_in_prog.Paxos.{Value, Accept, Promise}
use multi_paxos_work_in_prog.Paxos.Proposer.{Proposer, promise_of}

-- A leader that has finished Phase One with nothing reported, with an idle queue, and with one
-- acceptor whose promise for the round has not come yet.
pub record IdleLeader (p : Proposer) (late : Promise) : Type 0 where
  pub leads : p.leader ≡ p.id
  pub done : p.phase_one_done ≡ true
  pub quorate : p.quorum ≤ p.promise_count
  pub nothing : p.promise_slots ≡ []
  pub no_accepts : p.accepts_out ≡ []
  pub no_requests : p.requests_in ≡ []
  pub ready : p.next_slot ≡ add_int p.adu (pos 1)
  pub small : InRange p.adu × (pos_part p.adu + 2 < 2 ^ 63)
  pub missing : promise_of p.promises late.from ≡ some none
  pub current : late.rnd ≡ p.crnd
  pub no_slots : late.slots ≡ none

abbrev accept_at : Proposer → Value → Accept
accept_at p v = record { from = p.id; slot = add_int p.adu (pos 1); rnd = p.crnd; val = v }

abbrev busy : Proposer → Proposer
busy p = record p { next_slot = add_int (add_int p.adu (pos 1)) (pos 1) }

late_state : Proposer → Promise → ℤ → Proposer
late_state p late l = record (busy p) {
  leader = l;
  sync_promise = true;
  is_first_phase = false;
  promises = set p.promises (pos_part late.from) (some late);
  promise_count = p.promise_count + 1;
}
