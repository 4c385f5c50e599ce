-- ===== src/Cluster/Agreement.antt =====
-- Two values that majorities of a cluster have voted for in one slot are the same.
use multi_paxos_work_in_prog.Common.{
  ℕ, zero, suc, ◌+◌, ◌<◌, pos_part, neg_part, int_eq, ◌≤ℤ◌, ◌<ℤ◌, Bool, true, List, [], ◌∷◌, some,
  ◌≡◌, refl, sym, ◌∙◌, subst, ◌⊎◌, inl, inr, arith, eq_of_parts,
}
use multi_paxos_work_in_prog.Common.Quorums.{IsMajority, majorities_meet}
use multi_paxos_work_in_prog.Paxos.{SlotId, Round, Value, PromiseSlot, Accept}
use multi_paxos_work_in_prog.Paxos.Acceptor.Voting.{VotedFor}
use multi_paxos_work_in_prog.Cluster.{Cluster, report, Among, IssuedFor, IsSafe, Reach}
use multi_paxos_work_in_prog.Cluster.Invariant.{Inv, Reach-Inv}
use multi_paxos_work_in_prog.Cluster.Delivery.{Among-IssuedFor}

-- A majority of the nodes has voted for the value in this slot and round.
pub record Chosen (n : ℕ) (c : Cluster) (s : SlotId) (r : Round) (v : Value) : Type 0 where
  pub quorum : ℕ → Bool
  pub majority : IsMajority n quorum
  pub voted : (i : ℕ) → i < n → quorum i ≡ true → VotedFor s r v (c.sent i)

IssuedFor-Among :
    (s : SlotId) (r : Round) (v : Value) (l : List Accept)
    → IssuedFor s r v l
    → (acc : Accept) × Among acc l × (acc.slot ≡ s) × (acc.rnd ≡ r) × (acc.val ≡ v)
IssuedFor-Among s r v [] h = absurd h
IssuedFor-Among s r v (a ∷ l) (inl h) = (a, inl refl, h.0, h.1, h.2)
IssuedFor-Among s r v (a ∷ l) (inr h) =
    let (b, m, x, y, z) = IssuedFor-Among s r v l h in (b, inr m, x, y, z)

same_or_later : (r t : Round) → r ≤ℤ t → (r ≡ t) ⊎ (r <ℤ t)
same_or_later r t h = ground (arith, eq_of_parts r t)

module _ (n : ℕ) (c : Cluster) (inv : Inv n c) where
  Chosen-IssuedFor :
      (s : SlotId) (r : Round) (v : Value) → Chosen n c s r v → IssuedFor s r v c.issued
  Chosen-IssuedFor s r v h =
      let (i, lt, q, _) = majorities_meet n h.quorum h.quorum h.majority h.majority in
      (inv.nodes i).voted s r v (h.voted i lt q)

  -- A node of both majorities reports its vote, or one of a higher round.
  reported_vote :
      (acc : Accept) (r : Round) (v : Value) (safe : IsSafe n c acc)
      → Chosen n c acc.slot r v
      → r <ℤ acc.rnd
      → (i : ℕ) × (q : PromiseSlot) × (i < n)
        × (safe.quorum i ≡ true)
        × (report acc.slot (safe.answer i) ≡ some q)
        × (r ≤ℤ q.vrnd)
  reported_vote acc r v safe h later =
      let (i, lt, chose, promised) =
        majorities_meet n h.quorum safe.quorum h.majority safe.majority in
      let (m, at, rnd, slot) = safe.promised i lt promised in
      let ans = (inv.nodes i).honest (safe.answer i) m at in
      let (q, e, le) =
        ans.complete acc.slot r v slot (subst (λ t. r <ℤ t) (sym rnd) later) (h.voted i lt chose) in
      (i, q, lt, promised, e, le)

  -- The value of an earlier vote that the accept takes up.
  earlier_vote :
      (acc : Accept) (r : Round) (v : Value)
      → IsSafe n c acc
      → Chosen n c acc.slot r v
      → r <ℤ acc.rnd
      → (b : Accept) × Among b c.issued
        × (b.slot ≡ acc.slot)
        × (b.val ≡ acc.val)
        × (r ≤ℤ b.rnd)
        × (b.rnd <ℤ acc.rnd)
  earlier_vote acc r v safe h later =
      let (i, q, lt, promised, e, le) = reported_vote acc r v safe h later in
      elim safe.choice [
        | inl free ↦ absurd (ground (arith, e, free i lt promised))
        | inr bound ↦
            let up = bound.highest i lt promised q e in
            let (b, m, slot, rnd, val) =
              IssuedFor-Among acc.slot bound.round acc.val c.issued
                ((inv.nodes bound.voter).voted acc.slot bound.round acc.val bound.voted) in
            (
              b,
              m,
              slot,
              val,
              subst (λ t. r ≤ℤ t) (sym rnd) (omega (arith, le, up)),
              subst (λ t. t <ℤ acc.rnd) (sym rnd) bound.earlier,
            )
      ]

  -- Every accept that is sent from the round of the choice on has the chosen value.
  value_stays :
      (f : ℕ) (acc : Accept) (r : Round) (v : Value)
      → Among acc c.issued
      → Chosen n c acc.slot r v
      → r ≤ℤ acc.rnd
      → pos_part acc.rnd + neg_part r < f + (pos_part r + neg_part acc.rnd)
      → acc.val ≡ v
  value_stays zero acc r v m h from enough = absurd (omega arith)
  value_stays (suc f) acc r v m h from enough = elim (same_or_later r acc.rnd from) [
    | inl same ↦
        inv.alone acc.slot acc.rnd acc.val v (Among-IssuedFor acc c.issued m)
          (subst (λ t. IssuedFor acc.slot t v c.issued) same (Chosen-IssuedFor acc.slot r v h))
    | inr later ↦
        let (b, k, slot, val, low, high) = earlier_vote acc r v (inv.safe acc m) h later in
        sym val
        ∙ value_stays f b r v k (subst (λ s. Chosen n c s r v) (sym slot) h) low
            (omega (arith, low, high, enough))
  ]

  ordered_agree :
      (s : SlotId) (r t : Round) (v w : Value)
      → r ≤ℤ t
      → Chosen n c s r v
      → Chosen n c s t w
      → w ≡ v
  ordered_agree s r t v w le h k =
      let (acc, m, slot, rnd, val) = IssuedFor-Among s t w c.issued (Chosen-IssuedFor s t w k) in
      sym val
      ∙ value_stays (suc (pos_part acc.rnd + neg_part r)) acc r v m
          (subst (λ x. Chosen n c x r v) (sym slot) h) (subst (λ x. r ≤ℤ x) (sym rnd) le)
          (omega arith)

-- In every state that the cluster can reach, at most one value has the votes of a majority in a
-- slot, whatever the rounds are.
pub one_value :
    (n : ℕ) {c : Cluster} (s : SlotId) (r t : Round) (v w : Value)
    → Reach n c
    → Chosen n c s r v
    → Chosen n c s t w
    → v ≡ w
one_value n {c} s r t v w reach h k = elim (either_way r t) [
  | inl le ↦ sym (ordered_agree n c (Reach-Inv reach) s r t v w le h k)
  | inr ge ↦ ordered_agree n c (Reach-Inv reach) s t r w v ge k h
]
  where
    either_way : (r t : Round) → (r ≤ℤ t) ⊎ (t ≤ℤ r)
    either_way r t = ground arith
