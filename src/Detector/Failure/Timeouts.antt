-- ===== src/Detector/Failure/Timeouts.antt =====
-- What the timeout procedure of lab3/detector/fd.go does to the suspected nodes and to the delay.
use multi_paxos_work_in_prog.Common.{
  ℤ, int_eq, int_beq_iff, ◌==◌, not, ◌||◌, Bool, true, false, if◌then◌else◌, List, [], ◌∷◌, ◌++◌,
  none, arith, ◌≡◌, refl,
}
use multi_paxos_work_in_prog.Common.GoMap.{GoMap, lookup, lookup-insert, lookup-delete}
use multi_paxos_work_in_prog.Detector.{is_set}
use multi_paxos_work_in_prog.Detector.Failure.{
  EvtFailureDetector, Output, hb_send, sr_suspect, sr_restore, check_node, check_nodes, timeout,
  request_to,
}

-- the node is in the list
abbrev pub member : ℤ → List ℤ → Bool
member p [] = false
member p (q ∷ l) = (q == p) || member p l

check_node-lookup :
    (alive suspected : GoMap ℤ Bool) (q p : ℤ)
    → is_set (lookup p (check_node alive suspected q).0)
      ≡ (if q == p then not (is_set (lookup p alive)) else is_set (lookup p suspected))
unfolding check_node
check_node-lookup alive suspected q p =
    ground (arith, int_beq_iff q p, lookup-insert q p true suspected, lookup-delete q p suspected)

check_nodes-lookup :
    (id : ℤ) (alive suspected : GoMap ℤ Bool) (l : List ℤ) (p : ℤ)
    → is_set (lookup p (check_nodes id alive suspected l).0)
      ≡ (if member p l then not (is_set (lookup p alive)) else is_set (lookup p suspected))
unfolding check_nodes
check_nodes-lookup id alive suspected [] p = refl
check_nodes-lookup id alive suspected (q ∷ l) p = ground (
  arith,
  check_nodes-lookup id alive (check_node alive suspected q).0 l p,
  check_node-lookup alive suspected q p,
)

-- how often the outputs suspect, and restore, a node
abbrev pub suspicions : ℤ → List Output → List Bool
suspicions p [] = []
suspicions p (hb_send h ∷ o) = suspicions p o
suspicions p (sr_suspect q ∷ o) = let rest = suspicions p o in if q == p then true ∷ rest else rest
suspicions p (sr_restore q ∷ o) = let rest = suspicions p o in if q == p then false ∷ rest else rest

suspicions-append :
    (p : ℤ) (a b : List Output) → suspicions p (a ++ b) ≡ suspicions p a ++ suspicions p b
suspicions-append p [] b = refl
suspicions-append p (hb_send h ∷ a) b = suspicions-append p a b
suspicions-append p (sr_suspect q ∷ a) b = ground (arith, suspicions-append p a b)
suspicions-append p (sr_restore q ∷ a) b = ground (arith, suspicions-append p a b)

-- the indication for a node whose mark goes from one value to another
abbrev pub change : Bool → Bool → List Bool
change false true = true ∷ []
change true false = false ∷ []
change true true = []
change false false = []

check_node-suspicions :
    (alive suspected : GoMap ℤ Bool) (q p : ℤ)
    → suspicions p (check_node alive suspected q).1 ≡ (
        if q == p then change (is_set (lookup p suspected)) (not (is_set (lookup p alive))) else [])
unfolding check_node
check_node-suspicions alive suspected q p = ground (arith, int_beq_iff q p)

change_self : (b : Bool) → change b b ≡ []
change_self true = refl
change_self false = refl

check_nodes-suspicions :
    (id : ℤ) (alive suspected : GoMap ℤ Bool) (l : List ℤ) (p : ℤ)
    → suspicions p (check_nodes id alive suspected l).1 ≡ (
        if member p l
        then change (is_set (lookup p suspected)) (not (is_set (lookup p alive)))
        else [])
unfolding check_nodes request_to
check_nodes-suspicions id alive suspected [] p = refl
check_nodes-suspicions id alive suspected (q ∷ l) p = ground (
  arith,
  suspicions-append p (check_node alive suspected q).1
      (request_to id q ∷ (check_nodes id alive (check_node alive suspected q).0 l).1),
  check_node-suspicions alive suspected q p,
  check_node-lookup alive suspected q p,
  check_nodes-suspicions id alive (check_node alive suspected q).0 l p,
  change_self (not (is_set (lookup p alive))),
)

-- After a timeout a node of the cluster is suspected exactly if it was not alive, and the marks of
-- other nodes stay; the suspect and restore indications for a node are those of the change of its
-- mark, one at most; and no node is left alive.
pub timeout-suspected :
    (range : GoMap ℤ Bool → GoMap ℤ Bool) (e : EvtFailureDetector) (p : ℤ)
    → let (e', out) = timeout range e in
      (is_set (lookup p e'.suspected) ≡ (
        if member p e.node_ids
        then not (is_set (lookup p e.alive))
        else is_set (lookup p e.suspected)))
      × (suspicions p out ≡ change (is_set (lookup p e.suspected)) (is_set (lookup p e'.suspected)))
      × (lookup p e'.alive ≡ none)
unfolding timeout lookup
timeout-suspected range e p =
    let marks = check_nodes-lookup e.id e.alive e.suspected e.node_ids p in
    (
      marks,
      ground (
        arith,
        marks,
        check_nodes-suspicions e.id e.alive e.suspected e.node_ids p,
        change_self (is_set (lookup p e.suspected)),
      ),
      refl,
    )
