-- ===== src/Network/Server/Decided.antt =====
-- How the decided values change a server (`srvHandleDecidedValue` of lab6/network/server.go).
use multi_paxos_work_in_prog.Common.{
  suc, ◌+◌, ℤ, pos, int_eq, list_eq, nat_eq, Bool, List, [], ◌∷◌, ◌≡◌, subst, arith, length,
}
use mathlib.Core.List.{append-nil}
use multi_paxos_work_in_prog.Common.Int.{add_int}
use multi_paxos_work_in_prog.Paxos.{DecidedValue}
use multi_paxos_work_in_prog.Network.Server.{
  DistributedSrv, apply_decided, is_early, decided_from, handle_decided_value,
}
use multi_paxos_work_in_prog.Network.Server.Applying.{
  increments, advance, apply_decided-Applied, apply_all, Handled, decided_from-InStep,
  decided_from-Handled,
}

-- Of the new decided value and the values that wait, in this order, the server applies either all,
-- each of them being due in its turn, and none waits; or those in front of the first one that comes
-- too early, which then waits behind the rest. Its `adu` moves once for each time that it tells the
-- proposer to move its own, and that is once for each value that does not wait.
pub decided_in_step :
    (eof : ℤ → Bool) (s : DistributedSrv) (d : DecidedValue)
    → let (s', out) = handle_decided_value eof s d in
      Handled eof s (d ∷ s.dcd_val_in_list) (s', out)
      × (s'.adu ≡ advance (increments out) s.adu)
      × (increments out + length s'.dcd_val_in_list ≡ suc (length s.dcd_val_in_list))
unfolding handle_decided_value
decided_in_step eof s d =
    let i = decided_from-InStep eof s d s.dcd_val_in_list in
    (decided_from-Handled eof s d s.dcd_val_in_list, i.adu, i.kept)

-- The slots of the values follow one another, from the one after `a`.
abbrev pub Consecutive : ℤ → List DecidedValue → Type 0
Consecutive a [] = Unit {0}
Consecutive a (d ∷ l) = (d.slot_id ≡ add_int a (pos 1)) × Consecutive (add_int a (pos 1)) l

decided_from-Consecutive :
    (eof : ℤ → Bool) (s : DistributedSrv) (d : DecidedValue) (l : List DecidedValue)
    → Consecutive s.adu (d ∷ l)
    → decided_from eof s d l
      ≡ (record (apply_all eof s (d ∷ l)).0 { dcd_val_in_list = [] }, (apply_all eof s (d ∷ l)).1)
unfolding decided_from is_early
decided_from-Consecutive eof s d [] c = ground (arith, append-nil (apply_decided eof s d).1)
decided_from-Consecutive eof s d (x ∷ l) c =
    let a = apply_decided-Applied eof s d in
    let i = decided_from-Consecutive eof (apply_decided eof s d).0 x l (rw a.adu c.1) in
    ground (arith, i)

-- A value for the slot after `adu`, with waiting values for the slots that follow, in order, makes
-- the server apply all of them in the order of their slots, and leaves none waiting.
pub in_order_applied :
    (eof : ℤ → Bool) (s : DistributedSrv) (d : DecidedValue)
    → Consecutive s.adu (d ∷ s.dcd_val_in_list)
    → let (s', out) = apply_all eof s (d ∷ s.dcd_val_in_list) in
      handle_decided_value eof s d ≡ (record s' { dcd_val_in_list = [] }, out)
unfolding handle_decided_value
in_order_applied eof s d c = decided_from-Consecutive eof s d s.dcd_val_in_list c

-- Two servers that differ in their identity, their leader and their connections only.
pub record SameState (s t : DistributedSrv) : Type 0 where
  pub adu : s.adu ≡ t.adu
  pub usr_accnt : s.usr_accnt ≡ t.usr_accnt
  pub dcd_val_in_list : s.dcd_val_in_list ≡ t.dcd_val_in_list

decided_from-SameState :
    (eof eof' : ℤ → Bool) (s t : DistributedSrv) (d : DecidedValue) (l : List DecidedValue)
    → SameState s t
    → SameState (decided_from eof s d l).0 (decided_from eof' t d l).0
unfolding decided_from is_early
decided_from-SameState eof eof' s t d [] h =
    ground (arith, apply_decided-Applied eof s d, apply_decided-Applied eof' t d)
decided_from-SameState eof eof' s t d (x ∷ l) h =
    let same : SameState (apply_decided eof s d).0 (apply_decided eof' t d).0 =
      ground (arith, apply_decided-Applied eof s d, apply_decided-Applied eof' t d) in
    let i =
      decided_from-SameState eof eof' (apply_decided eof s d).0 (apply_decided eof' t d).0 x l
        same in
    ground (arith, i)

-- a server after decided values that arrive one after another, each with what becomes of the writes
abbrev pub after_decided : DistributedSrv → List ((ℤ → Bool) × DecidedValue) → DistributedSrv
after_decided s [] = s
after_decided s ((eof, d) ∷ ds) = after_decided (handle_decided_value eof s d).0 ds

-- the decided values alone
abbrev pub values_of : List ((ℤ → Bool) × DecidedValue) → List DecidedValue
values_of [] = []
values_of ((eof, d) ∷ ds) = d ∷ values_of ds

-- Two servers with the same accounts, `adu` and waiting values still have the same after the same
-- decided values in the same order, whoever leads and however their connections fare.
pub replicas_agree :
    (s t : DistributedSrv) (ds ds' : List ((ℤ → Bool) × DecidedValue))
    → SameState s t
    → values_of ds ≡ values_of ds'
    → SameState (after_decided s ds) (after_decided t ds')
unfolding handle_decided_value
replicas_agree s t [] [] h e = h
replicas_agree s t [] ((eof', d') ∷ ds') h e = cc
replicas_agree s t ((eof, d) ∷ ds) [] h e = cc
replicas_agree s t ((eof, d) ∷ ds) ((eof', d') ∷ ds') h e =
    let same : SameState (handle_decided_value eof s d).0 (handle_decided_value eof' t d').0 =
      subst (λ x. SameState (handle_decided_value eof s d).0 (handle_decided_value eof' t x).0)
        (cc e)
        (subst
          (λ l. SameState (decided_from eof s d s.dcd_val_in_list).0 (decided_from eof' t d l).0)
          h.dcd_val_in_list (decided_from-SameState eof eof' s t d s.dcd_val_in_list h)) in
    replicas_agree (handle_decided_value eof s d).0 (handle_decided_value eof' t d').0 ds ds' same
      (cc e)
