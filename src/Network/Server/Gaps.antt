-- ===== src/Network/Server/Gaps.antt =====
-- Decided values that come twice or out of order (`srvHandleDecidedValue` of
-- lab6/network/server.go, lines 188-224).
use multi_paxos_work_in_prog.Common.{
  ℕ, ◌+◌, ◌<◌, ◌^◌, ℤ, pos, pos_part, int_eq, list_eq, nat_eq, ltb_ℤ, ◌≤ℤ◌, Bool, true, false, [],
  ◌∷◌, ◌≡◌, ◌∙◌, arith,
}
use multi_paxos_work_in_prog.Common.Int.{add_int, add_int_lem, InRange, ◌+ℤ◌}
use multi_paxos_work_in_prog.Paxos.{DecidedValue}
use multi_paxos_work_in_prog.Network.Server.{
  DistributedSrv, execute, apply_decided, is_early, decided_from, handle_decided_value,
}
use multi_paxos_work_in_prog.Network.Server.Applying.{apply_decided-Applied}

room : (a : ℤ) (k : ℕ) → InRange a → pos_part a + k < 2 ^ 63 → add_int a (pos k) ≡ a +ℤ pos k
room a k r small = add_int_lem a (pos k) (fits a k r small)
  where
    fits : (a : ℤ) (k : ℕ) → InRange a → pos_part a + k < 2 ^ 63 → InRange (a +ℤ pos k)
    fits a k r small = unfold ◌+ℤ◌ in ground arith

passed_not_early :
    (s : DistributedSrv) (d : DecidedValue)
    → d.slot_id ≤ℤ s.adu +ℤ pos 1
    → InRange s.adu
    → pos_part s.adu + 1 < 2 ^ 63
    → is_early s d ≡ false
unfolding is_early
passed_not_early s d h r small = ground (arith, room s.adu 1 r small)

-- A value, not a no-op, whose slot the server has passed already is executed again and moves `adu`
-- on, if no value waits and `adu` is not the largest `int`.
pub executed_again :
    (eof : ℤ → Bool) (s : DistributedSrv) (d : DecidedValue)
    → d.slot_id ≤ℤ s.adu
    → InRange s.adu
    → pos_part s.adu + 1 < 2 ^ 63
    → d.value.noop ≡ false
    → s.dcd_val_in_list ≡ []
    → let s' = (handle_decided_value eof s d).0 in
      (s'.usr_accnt ≡ (execute s.usr_accnt d.value).0) × (s'.adu ≡ s.adu +ℤ pos 1)
unfolding handle_decided_value decided_from
executed_again eof s d passed r small real none_waits = rw none_waits (
    ground (
      arith,
      apply_decided-Applied eof s d,
      room s.adu 1 r small,
      passed_not_early s d (below (s.adu) d.slot_id passed) r small,
    ))
  where
    below : (a b : ℤ) → b ≤ℤ a → b ≤ℤ a +ℤ pos 1
    below a b h = unfold ◌+ℤ◌ in ground arith

two_on :
    (a : ℤ) → InRange a → pos_part a + 3 < 2 ^ 63 → add_int (add_int a (pos 1)) (pos 1) ≡ a +ℤ pos 2
two_on a r small =
    rw (room a 1 r (omega (arith, small)))
      (room (a +ℤ pos 1) 1 (shifted a r small) (larger a small) ∙ twice a)
  where
    shifted : (a : ℤ) → InRange a → pos_part a + 3 < 2 ^ 63 → InRange (a +ℤ pos 1)
    shifted a r small = unfold ◌+ℤ◌ in ground arith

    larger : (a : ℤ) → pos_part a + 3 < 2 ^ 63 → pos_part (a +ℤ pos 1) + 1 < 2 ^ 63
    larger a small = unfold ◌+ℤ◌ in ground arith

    twice : (a : ℤ) → (a +ℤ pos 1) +ℤ pos 1 ≡ a +ℤ pos 2
    twice a = unfold ◌+ℤ◌ in ground arith

early_next :
    (s s' : DistributedSrv) (x : DecidedValue)
    → InRange s.adu
    → pos_part s.adu + 3 < 2 ^ 63
    → s'.adu ≡ add_int s.adu (pos 1)
    → x.slot_id ≡ s.adu +ℤ pos 3
    → is_early s' x ≡ true
unfolding is_early
early_next s s' x r small e ex = rw (e, two_on s.adu r small, ex) (above s.adu)
  where
    above : (a : ℤ) → ltb_ℤ (a +ℤ pos 2) (a +ℤ pos 3) ≡ true
    above a = unfold ◌+ℤ◌ in ground arith

-- When the values for the slots `adu + 3` and `adu + 2` wait in this order and the one for `adu + 1`
-- comes, both still wait after it, although the slot `adu + 2` is then the next one; all of this
-- where these numbers are below the largest `int`.
pub ready_value_waits :
    (eof : ℤ → Bool) (s : DistributedSrv) (d x y : DecidedValue)
    → InRange s.adu
    → pos_part s.adu + 3 < 2 ^ 63
    → d.slot_id ≡ s.adu +ℤ pos 1
    → y.slot_id ≡ s.adu +ℤ pos 2
    → x.slot_id ≡ s.adu +ℤ pos 3
    → s.dcd_val_in_list ≡ x ∷ y ∷ []
    → let s' = (handle_decided_value eof s d).0 in
      (s'.dcd_val_in_list ≡ y ∷ x ∷ []) × (y.slot_id ≡ add_int s'.adu (pos 1))
unfolding handle_decided_value decided_from
ready_value_waits eof s d x y r small sd sy sx waits =
    let a = apply_decided-Applied eof s d in
    rw waits (
      ground (
        arith,
        a,
        two_on s.adu r small,
        early_next s (apply_decided eof s d).0 x r small a.adu sx,
        passed_not_early s d (at_most d.slot_id (s.adu +ℤ pos 1) sd) r (omega (arith, small)),
      ))
  where
    at_most : (a b : ℤ) → a ≡ b → a ≤ℤ b
    at_most a b e = ground arith
