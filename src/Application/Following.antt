-- ===== src/Application/Following.antt =====
-- The application of lab6/application/app.go and the leaders of lab3/detector/ld.go.
use multi_paxos_work_in_prog.Common.{
  suc, ℤ, negsuc, int_eq, true, List, [], ◌∷◌, ◌++◌, none, some, ◌>>=◌, ◌≡◌, refl, sym, ap, subst,
  ◌∙◌, ◌⊎◌, inl, inr, map, Option-cases,
}
use multi_paxos_work_in_prog.Common.GoMap.{insert, delete}
use multi_paxos_work_in_prog.Detector.Leader.{
  MonLeaderDetector, new_detector, leader_election, suspect, restore, subscribe,
}
use multi_paxos_work_in_prog.Detector.Leader.Publishing.{election_publishes}
use multi_paxos_work_in_prog.Application.{
  DistributedApp, init_app, got_leader, Watched, receive, Event, suspects, restores, receives,
  subscribes, other_receives, take_at, with_detector, step, run, start,
}

-- The leader that the application has after it has received all that waits.
abbrev pub heard : ℤ → List ℤ → ℤ
heard leader [] = leader
heard leader (next ∷ ch) = heard next ch

heard_snoc : (leader last : ℤ) (ch : List ℤ) → heard leader (ch ++ last ∷ []) ≡ last
heard_snoc leader last [] = refl
heard_snoc leader last (next ∷ ch) = heard_snoc next last ch

-- The detector has not changed its first leader yet, and the application has heard of none; or the
-- application gets to the detector's leader.
abbrev pub UpToDate : ℤ → Watched → List ℤ → Type 0
UpToDate first w ch =
    ((ch ≡ []) × (w.detector.leader_id ≡ first) × (w.app.leader ≡ negsuc 0))
    ⊎ (heard w.app.leader ch ≡ w.detector.leader_id)

abbrev pub Follows : ℤ → Watched → Type 0
Follows first w =
    (ch : List ℤ) × (others : List (List ℤ)) × (w.detector.subscriber_chan ≡ ch ∷ others)
    × UpToDate first w ch

election-Follows :
    (first : ℤ) (app : DistributedApp) (m m' : MonLeaderDetector)
    → leader_election m ≡ some m'
    → Follows first (record { detector = m; app = app })
    → Follows first (record { detector = m'; app = app })
election-Follows first app m m' e (ch, others, first_chan, up) = elim (election_publishes m e) [
  | inl (changed, chans) ↦ (
    ch ++ m'.leader_id ∷ [],
    map (λ c. c ++ m'.leader_id ∷ []) others,
    chans ∙ ap (map (λ c. c ++ m'.leader_id ∷ [])) first_chan,
    inr (heard_snoc app.leader m'.leader_id ch),
  )
  | inr (same, chans) ↦ (
    ch,
    others,
    chans ∙ first_chan,
    elim up [
      | inl (empty, leader, none_yet) ↦ inl (empty, same ∙ leader, none_yet)
      | inr h ↦ inr (h ∙ sym same)
    ],
  )
]

receive-Follows :
    (first : ℤ) (m : MonLeaderDetector) (app : DistributedApp) (chans : List (List ℤ))
    → m.subscriber_chan ≡ chans
    → Follows first (record { detector = m; app = app })
    → Follows first (receive (record { detector = m; app = app }) chans)
unfolding receive got_leader
receive-Follows first m app [] e f = f
receive-Follows first m app ([] ∷ rest) e f = f
receive-Follows first m app ((leader ∷ ch) ∷ rest) e (held, others, first_chan, up) =
    let same : (leader ∷ ch) ∷ rest ≡ held ∷ others = sym e ∙ first_chan in
    let front : held ≡ leader ∷ ch = cc same in
    (
      ch,
      rest,
      refl,
      elim up [
        | inl (empty, still, none_yet) ↦ absurd (cc (front, empty))
        | inr h ↦ inr (subst (λ l. heard app.leader l ≡ m.leader_id) front h)
      ],
    )

called-Follows :
    (first : ℤ) (w w' : Watched) (m : MonLeaderDetector)
    → leader_election m ≡ none ⊎ ((m' : MonLeaderDetector) × (leader_election m ≡ some m'))
    → (leader_election m >>= with_detector w) ≡ some w'
    → Follows first (record w { detector = m })
    → Follows first w'
called-Follows first w w' m (inl e) q f = absurd (cc (q, e))
called-Follows first w w' m (inr (m', e)) q f =
    let next = election-Follows first w.app m m' e f in
    let same : record w { detector = m' } ≡ w' = cc (sym (ap (λ o. o >>= with_detector w) e) ∙ q) in
    subst (λ x. Follows first x) same next

step-Follows :
    (first : ℤ) (w w' : Watched) (e : Event)
    → step w e ≡ some w'
    → Follows first w
    → Follows first w'
unfolding step suspect restore subscribe take_at
step-Follows first w w' (suspects id) q f =
    let m = record w.detector { suspected = insert id true w.detector.suspected } in
    called-Follows first w w' m (Option-cases (leader_election m)) q f
step-Follows first w w' (restores id) q f =
    let m = record w.detector { suspected = delete id w.detector.suspected } in
    called-Follows first w w' m (Option-cases (leader_election m)) q f
step-Follows first w w' receives q f =
    let same : receive w w.detector.subscriber_chan ≡ w' = cc q in
    subst (λ x. Follows first x) same
      (receive-Follows first w.detector w.app w.detector.subscriber_chan refl f)
step-Follows first w w' subscribes q (ch, others, first_chan, up) =
    let same : record w { detector = subscribe w.detector } ≡ w' = cc q in
    subst (λ x. Follows first x) same (ch, others ++ [] ∷ [], ap (λ l. l ++ [] ∷ []) first_chan, up)
step-Follows first w w' (other_receives n) q (ch, others, first_chan, up) =
    let chans = take_at (suc n) w.detector.subscriber_chan in
    let same : record w { detector = record w.detector { subscriber_chan = chans } } ≡ w' = cc q in
    subst (λ x. Follows first x) same (ch, take_at n others, ap (take_at (suc n)) first_chan, up)

run-Follows :
    (first : ℤ) (w w' : Watched) (es : List Event)
    → run w es ≡ some w'
    → Follows first w
    → Follows first w'
unfolding run
run-Follows first w w' [] q f = let same : w ≡ w' = cc q in subst (λ x. Follows first x) same f
run-Follows first w w' (e ∷ es) q f = elim (Option-cases (step w e)) [
  | inl waits ↦ absurd (cc (sym (ap (λ o. o >>= (λ x. run x es)) waits) ∙ q))
  | inr (next, went) ↦
      run-Follows first next w' es (sym (ap (λ o. o >>= (λ x. run x es)) went) ∙ q)
        (step-Follows first w next e went f)
]

-- Whatever nodes are suspected and restored, whoever else subscribes and receives, as long as no call
-- of the detector waits, the first channel is the application's. Either the detector still has its first leader, nothing is in the channel and the
-- application's leader is -1, or the application comes to the detector's leader when it receives
-- what is in the channel.
pub app-Follows :
    (node_ids : List ℤ) (es : List Event) (w : Watched)
    → run (start node_ids) es ≡ some w
    → Follows (start node_ids).detector.leader_id w
unfolding start init_app subscribe new_detector
app-Follows node_ids es w q =
    run-Follows (start node_ids).detector.leader_id (start node_ids) w es q
      ([], [], refl, inl (refl, refl, refl))
