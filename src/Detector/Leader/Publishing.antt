-- ===== src/Detector/Leader/Publishing.antt =====
-- What lab3/detector/ld.go tells its subscribers.
use multi_paxos_work_in_prog.Common.{
  ◌≤◌, ℤ, int_eq, int_beq_iff, List, [], ◌∷◌, ◌++◌, map, none, some, length, arith, ◌≡◌, ◌≢◌, ◌⊎◌,
  inl, inr, Option-cases, ap,
}
use multi_paxos_work_in_prog.Detector.{unknown_id}
use multi_paxos_work_in_prog.Detector.Leader.{
  MonLeaderDetector, buffer, publish, rank_from, leader_election,
}

publish-some :
    (leader : ℤ) (l chs : List (List ℤ))
    → publish leader l ≡ some chs
    → chs ≡ map (λ ch. ch ++ leader ∷ []) l
unfolding publish
publish-some leader [] chs h = cc
publish-some leader (ch ∷ l) chs h = elim (Option-cases (publish leader l)) [
  | inl e ↦ absurd (ground arith)
  | inr (r, e) ↦ ground (arith, publish-some leader l r e)
]

publish_slow :
    (leader : ℤ) (before after : List (List ℤ)) (slow : List ℤ)
    → buffer ≤ length slow
    → publish leader (before ++ slow ∷ after) ≡ none
unfolding publish
publish_slow leader [] after slow full = ground arith
publish_slow leader (ch ∷ before) after slow full =
    ground (arith, publish_slow leader before after slow full)

-- An election that does not wait tells every subscriber of the new leader, once, exactly when the
-- leader changes, and otherwise tells nobody anything.
pub election_publishes :
    (m : MonLeaderDetector) {m' : MonLeaderDetector}
    → leader_election m ≡ some m'
    → ((m'.leader_id ≢ m.leader_id)
        × (m'.subscriber_chan ≡ map (λ ch. ch ++ m'.leader_id ∷ []) m.subscriber_chan))
      ⊎ ((m'.leader_id ≡ m.leader_id) × (m'.subscriber_chan ≡ m.subscriber_chan))
unfolding leader_election
election_publishes m {m'} h =
    let top = rank_from m.suspected unknown_id m.node_ids in
    elim (Option-cases (publish top m.subscriber_chan)) [
      | inl e ↦ ground (arith, int_beq_iff m.leader_id top)
      | inr (chs, e) ↦
          ground (arith, int_beq_iff m.leader_id top, publish-some top m.subscriber_chan chs e)
    ]

-- A subscriber whose channel is full makes every election that changes the leader wait, so that no
-- publication is dropped.
pub slow_subscriber_blocks :
    (m : MonLeaderDetector) (before after : List (List ℤ)) (slow : List ℤ)
    → m.subscriber_chan ≡ before ++ slow ∷ after
    → buffer ≤ length slow
    → m.leader_id ≢ rank_from m.suspected unknown_id m.node_ids
    → leader_election m ≡ none
unfolding leader_election
slow_subscriber_blocks m before after slow at full changed =
    let top = rank_from m.suspected unknown_id m.node_ids in
    ground (
      arith,
      int_beq_iff m.leader_id top,
      publish_slow top before after slow full,
      ap (publish top) at,
    )
