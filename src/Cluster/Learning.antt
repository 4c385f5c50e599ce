-- ===== src/Cluster/Learning.antt =====
-- Learners (lab6/multipaxos/learner.go) that hear the acceptors of a cluster.
use multi_paxos_work_in_prog.Common.{
  ℕ, zero, suc, ◌*◌, ◌<◌, ◌≤◌, ℤ, pos, negsuc, int_eq, int_beq_iff, nat_eq, nat_beq_iff, list_eq,
  ◌==◌, ◌&&◌, ◌||◌, Bool, true, false, List, [], ◌∷◌, ◌≡◌, ◌≢◌, refl, sym, ◌∙◌, ap, subst, inl, inr,
  arith, All, All-map, length, Bool-cases,
}
use multi_paxos_work_in_prog.Common.GoMap.{GoMap}
use multi_paxos_work_in_prog.Common.Quorums.{count_below, count_below-or_is}
use multi_paxos_work_in_prog.Common.Text.{Text}
use multi_paxos_work_in_prog.Paxos.{SlotId, Round, Value, Learn}
use multi_paxos_work_in_prog.Paxos.Acceptor.{Output, learn_out, promise_out}
use multi_paxos_work_in_prog.Paxos.Acceptor.Voting.{VotedFor}
use multi_paxos_work_in_prog.Paxos.Learner.{Orders, Learner, new_learner, handle_learn, run}
use multi_paxos_work_in_prog.Paxos.Learner.Search.{IsOrders}
use multi_paxos_work_in_prog.Paxos.Learner.Values.{IsRune, ValueIn}
use multi_paxos_work_in_prog.Paxos.Learner.Senders.{
  voters, Unique, voters-Unique, put-IsValid, new-IsValid,
}
use multi_paxos_work_in_prog.Paxos.Learner.Decisions.{
  with_learn, AllOrders, run-IsValid, learner_decides, decided_value,
}
use multi_paxos_work_in_prog.Paxos.Learner.Origins.{AllLearns, learns_from_outside}
use multi_paxos_work_in_prog.Cluster.{Cluster, Among, IssuedFor, Reach}
use multi_paxos_work_in_prog.Cluster.Votes.{Signed}
use multi_paxos_work_in_prog.Cluster.Invariant.{Inv, Reach-Inv}
use multi_paxos_work_in_prog.Cluster.Agreement.{Chosen, one_value}

-- A node of the cluster has sent the learn, and its round and slot are code points.
abbrev pub FromCluster : ℕ → Cluster → Learn → Type 0
FromCluster n c x =
    ((j : ℕ) × (j < n) × Among (learn_out x) (c.sent j)) × IsRune x.rnd × IsRune x.slot

-- The sender of the learn has voted for it.
abbrev SentBy : ℕ → Cluster → Learn → Type 0
SentBy n c x = (j : ℕ) × (j < n) × (x.from ≡ pos j) × VotedFor x.slot x.rnd x.val (c.sent j)

Among-SentBy :
    (id : ℤ) (x : Learn) (sent : List Output)
    → Signed id sent
    → Among (learn_out x) sent
    → (x.from ≡ id) × VotedFor x.slot x.rnd x.val sent
Among-SentBy id x [] s h = absurd h
Among-SentBy id x (learn_out l ∷ o) s (inl e) =
    let same : l ≡ x = cc e in
    (
      ap (λ (y : Learn). y.from) (sym same) ∙ s.0,
      inl (
        ap (λ (y : Learn). y.slot) same,
        ap (λ (y : Learn). y.rnd) same,
        ap (λ (y : Learn). y.val) same,
      ),
    )
Among-SentBy id x (learn_out l ∷ o) s (inr h) =
    let (own, v) = Among-SentBy id x o s.1 h in (own, inr v)
Among-SentBy id x (promise_out p ∷ o) s (inl e) = absurd (ground (arith, e))
Among-SentBy id x (promise_out p ∷ o) s (inr h) = Among-SentBy id x o s h

-- the nodes whose ids are in the list
voter_test : List ℤ → ℕ → Bool
voter_test [] i = false
voter_test (pos k ∷ l) i = (k == i) || voter_test l i
voter_test (negsuc k ∷ l) i = voter_test l i

voter_test-absent : (k : ℕ) (l : List ℤ) → All (λ b. b ≢ pos k) l → voter_test l k ≡ false
unfolding voter_test
voter_test-absent k [] h = refl
voter_test-absent k (pos j ∷ l) h = ground (arith, nat_beq_iff j k, voter_test-absent k l h.1)
voter_test-absent k (negsuc j ∷ l) h = voter_test-absent k l h.1

abbrev AllNodes : ℕ → List ℤ → Type 0
AllNodes n = All (λ a. (k : ℕ) × (k < n) × (a ≡ pos k))

count_below-voter_test :
    (n : ℕ) (l : List ℤ) → Unique l → AllNodes n l → count_below n (voter_test l) ≡ length l
unfolding voter_test
count_below-voter_test n [] u h = nobody n
  where
    nobody : (n : ℕ) → count_below n (λ i. false) ≡ 0
    nobody zero = refl
    nobody (suc n) = omega (arith, nobody n)
count_below-voter_test n (pos k ∷ l) u h =
    let (j, lt, e) = h.0 in
    let below : k < n = ground (arith, lt, e) in
    count_below-or_is n k (voter_test l) below (voter_test-absent k l u.0)
    ∙ ap suc (count_below-voter_test n l u.1 h.1)
count_below-voter_test n (negsuc k ∷ l) u h = let (j, lt, e) = h.0 in absurd (ground (arith, e))

module _ (n : ℕ) (c : Cluster) (r : Round) (s : SlotId) where
  voters-AllNodes : (m : GoMap Text Learn) → AllLearns (SentBy n c) m → AllNodes n (voters r s m)
  voters-AllNodes [] a = tt
  voters-AllNodes ((k, x) ∷ m) a =
      let (j, lt, e, w) = a.0 in
      elim (Bool-cases ((x.rnd == r) && (x.slot == s))) [
        | inl hit ↦ rw hit ((j, lt, e), voters-AllNodes m a.1)
        | inr miss ↦ rw miss (voters-AllNodes m a.1)
      ]

  -- A node that counts as a voter has voted, for some value.
  voter_voted :
      (m : GoMap Text Learn) (i : ℕ)
      → AllLearns (SentBy n c) m
      → voter_test (voters r s m) i ≡ true
      → (v : Value) × VotedFor s r v (c.sent i)
  unfolding voter_test
  voter_voted [] i a h = absurd (cc h)
  voter_voted ((k, x) ∷ m) i a h = elim (Bool-cases ((x.rnd == r) && (x.slot == s))) [
    | inr miss ↦ voter_voted m i a.1 (rw miss at h)
    | inl hit ↦
        let (j, lt, e, w) = a.0 in
        let h' : voter_test (x.from ∷ voters r s m) i ≡ true = rw hit at h in
        elim (Bool-cases (j == i)) [
          | inr other ↦ voter_voted m i a.1 (ground (arith, rw e at h', other))
          | inl same ↦ (
            x.val,
            at_node j i x.slot x.rnd x.val same (ground (arith, int_beq_iff x.slot s))
                (ground (arith, int_beq_iff x.rnd r)) w,
          )
        ]
  ]
    where
      at_node :
          (j i : ℕ) (t : SlotId) (q : Round) (v : Value)
          → (j == i) ≡ true
          → t ≡ s
          → q ≡ r
          → VotedFor t q v (c.sent j)
          → VotedFor s r v (c.sent i)
      at_node j i t q v same et eq w =
          subst (λ z. VotedFor s r v (c.sent z)) ((nat_beq_iff j i).0 same)
            (subst (λ z. VotedFor s z v (c.sent j)) eq
              (subst (λ z. VotedFor z q v (c.sent j)) et w))

  ValueIn-IssuedFor :
      (m : GoMap Text Learn) (v : Value)
      → Inv n c
      → AllLearns (SentBy n c) m
      → ValueIn r s v m
      → IssuedFor s r v c.issued
  ValueIn-IssuedFor [] v inv a i = absurd i
  ValueIn-IssuedFor ((k, x) ∷ m) v inv a (inr i) = ValueIn-IssuedFor m v inv a.1 i
  ValueIn-IssuedFor ((k, x) ∷ m) v inv a (inl (er, es, ev)) =
      let (j, lt, e, w) = a.0 in
      subst (λ z. IssuedFor s r z c.issued) ev
        (subst (λ z. IssuedFor s z x.val c.issued) er
          (subst (λ z. IssuedFor z x.rnd x.val c.issued) es
            ((inv.nodes j).voted x.slot x.rnd x.val w)))

module _ (n : ℕ) (c : Cluster) (inv : Inv n c) where
  FromCluster-SentBy : (x : Learn) → FromCluster n c x → SentBy n c x
  FromCluster-SentBy x ((j, lt, m), _, _) =
      let (e, w) = Among-SentBy (pos j) x (c.sent j) (inv.nodes j).signed m in (j, lt, e, w)

  -- What the learns of a quorum of different senders amount to.
  voters-Chosen :
      (m : GoMap Text Learn) (r : Round) (s : SlotId) (v : Value) (quorum : ℕ)
      → n < 2 * quorum
      → AllLearns (SentBy n c) m
      → Unique (voters r s m)
      → quorum ≤ length (voters r s m)
      → ValueIn r s v m
      → Chosen n c s r v
  voters-Chosen m r s v quorum big a u enough i = record {
    quorum = voter_test (voters r s m);
    majority =
        omega (arith, count_below-voter_test n (voters r s m) u (voters-AllNodes n c r s m a));
    voted = λ j lt q.
        let (w, voted) = voter_voted n c r s m j a q in
        subst (λ z. VotedFor s r z (c.sent j))
          (inv.alone s r w v ((inv.nodes j).voted s r w voted)
            (ValueIn-IssuedFor n c r s m v inv a i))
          voted;
  }

-- In every state that a cluster can reach: if a new learner of its nodes hears nothing but learns
-- that they have sent, with rounds and slots that are code points, then a value that it decides has
-- the votes of a majority for its slot.
pub decided-Chosen :
    (n : ℕ) {c : Cluster} (id : ℤ) (es : List (Orders × Learn)) (o : Orders) (x : Learn)
    {l : Learner} {v : Value} {s : SlotId}
    → Reach n c
    → AllOrders es
    → IsOrders o
    → All (λ e. FromCluster n c e.1) es
    → FromCluster n c x
    → handle_learn o (run (new_learner id n) [] es).0 x ≡ (l, v, s, true)
    → (r : Round) × Chosen n c s r v
decided-Chosen n {c} id es o x {v} {s} reach all ok heard last e =
    let inv = Reach-Inv reach in
    let learner = (run (new_learner id n) [] es).0 in
    let (valid, q) = run-IsValid (new_learner id n) [] es all (new-IsValid id n) in
    let after = put-IsValid learner x valid in
    let runes =
      learns_from_outside (λ y. IsRune y.rnd × IsRune y.slot) id n es x all
        (All-map (λ e. FromCluster n c e.1) (λ e. IsRune e.1.rnd × IsRune e.1.slot)
          (λ e h. (h.1, h.2)) es heard)
        (last.1, last.2) in
    let senders =
      learns_from_outside (SentBy n c) id n es x all
        (All-map (λ e. FromCluster n c e.1) (λ e. SentBy n c e.1)
          (λ e h. FromCluster-SentBy n c inv e.1 h) es heard)
        (FromCluster-SentBy n c inv x last) in
    let (r, enough, i) = decided_value id n es o x all ok runes e in
    let big = (learner_decides id n es o x all ok).1 in
    (
      r,
      voters-Chosen n c inv (with_learn learner x).learns r s v learner.quorum big senders
          (voters-Unique r s (with_learn learner x).learns after.distinct after.keyed) enough i,
    )

-- In every state that a cluster can reach: two new learners of its nodes that hear nothing but
-- learns that they have sent, with rounds and slots that are code points, never decide different
-- values for a slot, whatever each hears, how often and in whatever order.
pub learners_agree :
    (n : ℕ) {c : Cluster} (i j : ℤ) (es fs : List (Orders × Learn)) (o p : Orders) (x y : Learn)
    {l m : Learner} {v w : Value} {s : SlotId}
    → Reach n c
    → AllOrders es
    → AllOrders fs
    → IsOrders o
    → IsOrders p
    → All (λ e. FromCluster n c e.1) es
    → All (λ e. FromCluster n c e.1) fs
    → FromCluster n c x
    → FromCluster n c y
    → handle_learn o (run (new_learner i n) [] es).0 x ≡ (l, v, s, true)
    → handle_learn p (run (new_learner j n) [] fs).0 y ≡ (m, w, s, true)
    → v ≡ w
learners_agree n i j es fs o p x y {v} {w} {s} reach all_e all_f ok_o ok_p heard_e heard_f last_x
      last_y e f =
    let (r, h) = decided-Chosen n i es o x reach all_e ok_o heard_e last_x e in
    let (t, k) = decided-Chosen n j fs p y reach all_f ok_p heard_f last_y f in
    one_value n s r t v w reach h k
