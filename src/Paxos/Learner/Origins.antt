-- ===== src/Paxos/Learner/Origins.antt =====
-- Where the learns in the map of a learner come from (lab6/multipaxos/learner.go).
use multi_paxos_work_in_prog.Common.{
  ℕ, ℤ, int_eq, Bool, list_eq, nat_eq, List, [], ◌∷◌, All, sym, ◌∙◌, Bool-cases, inl, inr,
}
use multi_paxos_work_in_prog.Common.GoMap.{GoMap, lookup, Listing, All-Listing, All-lookup}
use multi_paxos_work_in_prog.Common.Text.{Text}
use multi_paxos_work_in_prog.Paxos.{SlotId, Round, Value, Learn, DecidedValue}
use multi_paxos_work_in_prog.Paxos.Learner.{
  Orders, Learner, joined_key, is_newer, put_learn, remove_learn, handle_learn, new_learner, run,
}
use multi_paxos_work_in_prog.Paxos.Learner.Search.{IsOrders}
use multi_paxos_work_in_prog.Paxos.Learner.Values.{remove_learn-lookup, remove_learn-Distinct}
use multi_paxos_work_in_prog.Paxos.Learner.Senders.{
  IsValid, put-IsValid, new-IsValid, insert-All, unless_in-some,
}
use multi_paxos_work_in_prog.Paxos.Learner.Decisions.{
  with_learn, Outcome, undecided, decided, handle_learn-Outcome, AllOrders, Outcome-IsValid,
}

-- every learn in the map has the property
abbrev pub AllLearns : (Learn → Type 0) → GoMap Text Learn → Type 0
AllLearns P = All (λ e. P e.1)

module _ (P : Learn → Type 0) where
  pub with_learn-AllLearns :
      (l : Learner) (x : Learn) → P x → AllLearns P l.learns → AllLearns P (with_learn l x).learns
  unfolding put_learn
  with_learn-AllLearns l x p h =
      elim (Bool-cases (is_newer (lookup (joined_key x.from x.slot) l.learns) x)) [
        | inr old ↦ rw (old, put_learn) h
        | inl new ↦
            rw (new, put_learn) (insert-All (λ e. P e.1) (joined_key x.from x.slot) x l.learns h p)
      ]

  remove_learn-AllLearns :
      (o : Orders) (l : Learner) (r : Round) (s : SlotId)
      → Listing l.learns (o.of_removal l.learns)
      → IsValid l
      → AllLearns P l.learns
      → AllLearns P (remove_learn o l r s).learns
  remove_learn-AllLearns o l r s visits v h =
      All-Listing (λ e. P e.1) (remove_learn o l r s).learns
        (remove_learn-Distinct o l r s v.distinct)
        (λ k x q.
          All-lookup (λ e. P e.1) l.learns h k x
            (unless_in-some r s (lookup k l.learns) x
              (sym (remove_learn-lookup o l r s visits k) ∙ q)))

  Outcome-AllLearns :
      (o : Orders) (l : Learner) (x : Learn) {res : Learner × Value × SlotId × Bool}
      → IsOrders o
      → IsValid l
      → P x
      → AllLearns P l.learns
      → Outcome o l x res
      → AllLearns P res.0.learns
  Outcome-AllLearns o l x ok v p h (undecided few) = with_learn-AllLearns l x p h
  Outcome-AllLearns o l x ok v p h (decided r s w d) =
      let after = put-IsValid l x v in
      remove_learn-AllLearns o (with_learn l x) r s
        (ok.removal (with_learn l x).learns after.distinct) after (with_learn-AllLearns l x p h)

  run-AllLearns :
      (l : Learner) (ds : List DecidedValue) (es : List (Orders × Learn))
      → AllOrders es
      → IsValid l
      → All (λ e. P e.1) es
      → AllLearns P l.learns
      → AllLearns P (run l ds es).0.learns
  unfolding run
  run-AllLearns l ds [] ok v p h = h
  run-AllLearns l ds ((o, x) ∷ es) ok v p h =
      let out = handle_learn-Outcome o ok.0 l x v in
      run-AllLearns (handle_learn o l x).0 _ es ok.1 (Outcome-IsValid o ok.0 l x v out).0 p.1
        (Outcome-AllLearns o l x ok.0 v p.0 h out)

  -- What holds of every learn that a new learner has got holds of every learn that counts.
  pub learns_from_outside :
      (id : ℤ) (n : ℕ) (es : List (Orders × Learn)) (x : Learn)
      → AllOrders es
      → All (λ e. P e.1) es
      → P x
      → AllLearns P (with_learn (run (new_learner id n) [] es).0 x).learns
  unfolding new_learner
  learns_from_outside id n es x ok p q =
      with_learn-AllLearns (run (new_learner id n) [] es).0 x q
        (run-AllLearns (new_learner id n) [] es ok (new-IsValid id n) p tt)
