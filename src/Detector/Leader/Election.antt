-- ===== src/Detector/Leader/Election.antt =====
-- The leader that lab3/detector/ld.go elects.
use multi_paxos_work_in_prog.Common.{
  ℤ, negsuc, ltb_ℤ, ◌≤ℤ◌, int_eq, int_beq_iff, Bool, true, false, if◌then◌else◌, List, [], ◌∷◌,
  some, arith, ◌≡◌, refl, ◌⊎◌, inl, inr, Option-cases, sym, ◌∙◌, ap, subst,
}
use multi_paxos_work_in_prog.Common.GoMap.{GoMap, lookup, insert, delete}
use multi_paxos_work_in_prog.Detector.{is_set, unknown_id}
use multi_paxos_work_in_prog.Detector.Leader.{
  MonLeaderDetector, highest_from, rank_from, new_detector, leader_election, suspect, restore,
  subscribe, Call, suspects, restores, subscribes, call, run,
}

-- The node is in the list and not suspected.
abbrev pub Candidate : GoMap ℤ Bool → ℤ → List ℤ → Type 0
Candidate suspected id [] = ⊥
Candidate suspected id (x ∷ l) =
    ((x ≡ id) × (is_set (lookup id suspected) ≡ false)) ⊎ Candidate suspected id l

-- Every node that is not suspected has an id up to `top`.
abbrev pub Tops : GoMap ℤ Bool → ℤ → List ℤ → Type 0
Tops suspected top [] = Unit {0}
Tops suspected top (x ∷ l) = (is_set (lookup x suspected) ≡ false → x ≤ℤ top) × Tops suspected top l

-- `leader` is the highest node that is not suspected, or `unknown_id` if none is above it.
abbrev pub Highest : GoMap ℤ Bool → ℤ → List ℤ → Type 0
Highest suspected leader l =
    Tops suspected leader l
    × (unknown_id ≤ℤ leader)
    × ((leader ≡ unknown_id) ⊎ Candidate suspected leader l)

-- the highest rank after one node
abbrev next_rank : GoMap ℤ Bool → ℤ → ℤ → ℤ
next_rank suspected top x =
    if is_set (lookup x suspected) then top else if ltb_ℤ top x then x else top

next_rank-ge :
    (suspected : GoMap ℤ Bool) (top x : ℤ)
    → (is_set (lookup x suspected) ≡ false → x ≤ℤ next_rank suspected top x)
      × (top ≤ℤ next_rank suspected top x)
next_rank-ge suspected top x = ground arith

rank_from-Tops :
    (suspected : GoMap ℤ Bool) (top : ℤ) (l : List ℤ)
    → Tops suspected (rank_from suspected top l) l × (top ≤ℤ rank_from suspected top l)
unfolding rank_from
rank_from-Tops suspected top [] = (tt, omega arith)
rank_from-Tops suspected top (x ∷ l) =
    let (rest, up) = rank_from-Tops suspected (next_rank suspected top x) l in
    let (here, kept) = next_rank-ge suspected top x in
    ((λ e. le_ℤ-trans x _ _ (here e) up, rest), le_ℤ-trans top _ _ kept up)
  where
    le_ℤ-trans : (a b c : ℤ) → a ≤ℤ b → b ≤ℤ c → a ≤ℤ c
    le_ℤ-trans a b c h k = omega arith

rank_from-Candidate :
    (suspected : GoMap ℤ Bool) (top : ℤ) (l : List ℤ)
    → (rank_from suspected top l ≡ top) ⊎ Candidate suspected (rank_from suspected top l) l
unfolding rank_from
rank_from-Candidate suspected top [] = inl refl
rank_from-Candidate suspected top (x ∷ l) =
    elim (rank_from-Candidate suspected (next_rank suspected top x) l) [
      | inr c ↦ inr (inr c)
      | inl e ↦ elim (next_cases suspected top x) [
        | inl kept ↦ inl (e ∙ kept)
        | inr (taken, fine) ↦
            inr (inl (sym (e ∙ taken), ap (λ z. is_set (lookup z suspected)) (e ∙ taken) ∙ fine))
      ]
    ]
  where
    next_cases :
        (suspected : GoMap ℤ Bool) (top x : ℤ)
        → (next_rank suspected top x ≡ top)
          ⊎ ((next_rank suspected top x ≡ x) × (is_set (lookup x suspected) ≡ false))
    next_cases suspected top x = ground arith

pub rank-Highest :
    (suspected : GoMap ℤ Bool) (l : List ℤ) → Highest suspected (rank_from suspected unknown_id l) l
rank-Highest suspected l =
    let (tops, up) = rank_from-Tops suspected unknown_id l in
    (tops, up, rank_from-Candidate suspected unknown_id l)

highest-rank : (top : ℤ) (l : List ℤ) → highest_from top l ≡ rank_from [] top l
unfolding highest_from rank_from lookup
highest-rank top [] = refl
highest-rank top (x ∷ l) = highest-rank (if ltb_ℤ top x then x else top) l

-- the leader is the one that an election would choose
abbrev pub Elected : MonLeaderDetector → Type 0
Elected m = m.leader_id ≡ rank_from m.suspected unknown_id m.node_ids

election_cases :
    (m : MonLeaderDetector) {m' : MonLeaderDetector}
    → leader_election m ≡ some m'
    → Elected m' × (m'.suspected ≡ m.suspected) × (m'.node_ids ≡ m.node_ids)
unfolding leader_election
election_cases m h =
    ground (arith, int_beq_iff m.leader_id (rank_from m.suspected (negsuc 0) m.node_ids))

call-Elected :
    (m : MonLeaderDetector) (c : Call) {m' : MonLeaderDetector}
    → Elected m
    → call m c ≡ some m'
    → Elected m' × (m'.node_ids ≡ m.node_ids)
unfolding call suspect restore subscribe
call-Elected m (suspects id) e h =
    let r = election_cases (record m { suspected = insert id true m.suspected }) h in (r.0, r.2)
call-Elected m (restores id) e h =
    let r = election_cases (record m { suspected = delete id m.suspected }) h in (r.0, r.2)
call-Elected m subscribes e h = ground arith

run-Elected :
    (m : MonLeaderDetector) (cs : List Call) {m' : MonLeaderDetector}
    → Elected m
    → run m cs ≡ some m'
    → Elected m' × (m'.node_ids ≡ m.node_ids)
unfolding run
run-Elected m [] e h = ground arith
run-Elected m (c ∷ cs) {m'} e h = elim (Option-cases (call m c)) [
  | inl x ↦ absurd (ground arith)
  | inr (n, x) ↦
      let (e', same) = call-Elected m c e x in
      let (e'', same') = run-Elected n cs {m' = m'} e' (ground arith) in (e'', same' ∙ same)
]

-- After any calls that did not wait for a subscriber, the leader is the highest node that is not
-- suspected, or `unknown_id` where there is none above it.
pub leader-Highest :
    (node_ids : List ℤ) (cs : List Call) {m : MonLeaderDetector}
    → run (new_detector node_ids) cs ≡ some m
    → Highest m.suspected m.leader_id node_ids
unfolding new_detector
leader-Highest node_ids cs {m} h =
    let (e, same) = run-Elected (new_detector node_ids) cs start h in
    subst (λ r. Highest m.suspected r node_ids)
      (sym (e ∙ ap (rank_from m.suspected unknown_id) same)) (rank-Highest m.suspected node_ids)
  where
    start : Elected (new_detector node_ids)
    start = highest-rank unknown_id node_ids
