-- ===== src/Paxos/Acceptor/Reports.antt =====
-- What a promise reports (`handlePrepare` of lab6/multipaxos/acceptor.go).
use multi_paxos_work_in_prog.Common.{
  ℤ, true, false, ◌<ℤ◌, ◌≤ℤ◌, leb_ℤ, int_eq, if◌then◌else◌, List, [], ◌∷◌, Option, none, some,
  arith, ◌≡◌, refl, ◌⊎◌, inl, inr, le→leb_ℤ, ◌∙◌, sym, subst,
}
use multi_paxos_work_in_prog.Common.GoMap.{GoMap, lookup, Distinct, Listing, All-Listing}
use multi_paxos_work_in_prog.Paxos.{SlotId, PromiseSlot, Prepare, reported}
use multi_paxos_work_in_prog.Paxos.Acceptor.{
  Acceptor, new_acceptor, Range, handle_prepare, sort_slots, slots_from, to_slice, Event, Output,
  run,
}
use multi_paxos_work_in_prog.Paxos.Acceptor.Sorting.{
  by_id, Ascending, Keyed, sort_slots-lookup, sort_slots-Ascending, slots_from-lookup,
  slots_from-Distinct, Ascending-unique,
}
use multi_paxos_work_in_prog.Paxos.Acceptor.Voting.{Recorded, History, run-History, new-History}

Recorded-id :
    (s : SlotId) (o : Option PromiseSlot) (sent : List Output) (p : PromiseSlot)
    → Recorded s o sent
    → o ≡ some p
    → p.id ≡ s
Recorded-id s none sent p r e = cc
Recorded-id s (some q) sent p r e = cc (r.0)

reported-to_slice : (l : List PromiseSlot) → reported (to_slice l) ≡ l
reported-to_slice [] = refl
reported-to_slice (p ∷ l) = refl

-- The facts about a traversal of the map of an acceptor with a history.
module _ (a : Acceptor) (sent : List Output) (h : History a sent) (l : GoMap SlotId PromiseSlot)
    (visits : Listing a.slots l) where
  Listing-Keyed : Keyed l
  Listing-Keyed =
      All-Listing (λ e. e.1.id ≡ e.0) l visits.distinct
        (λ k p q. Recorded-id k (lookup k a.slots) sent p (h.recorded k) (sym (visits.same k) ∙ q))

  collected-Distinct : (slot : SlotId) → Distinct (by_id (slots_from slot l))
  collected-Distinct slot = slots_from-Distinct slot l Listing-Keyed visits.distinct

  collected-lookup :
      (slot s : SlotId)
      → lookup s (by_id (sort_slots (slots_from slot l)))
        ≡ (if leb_ℤ slot s then lookup s a.slots else none)
  collected-lookup slot s = rw (
    sort_slots-lookup (slots_from slot l) (collected-Distinct slot) s,
    slots_from-lookup slot s l Listing-Keyed visits.distinct,
    visits.same s,
  )

  collected-Ascending : (slot : SlotId) → Ascending (sort_slots (slots_from slot l))
  collected-Ascending slot = sort_slots-Ascending (slots_from slot l) (collected-Distinct slot)

handle_prepare-slots :
    (range : Range) (a : Acceptor) (p : Prepare)
    → (handle_prepare range a p).2 ≡ true
    → reported (handle_prepare range a p).1.slots ≡ sort_slots (slots_from p.slot (range a.slots))
unfolding handle_prepare
handle_prepare-slots range a p out =
    ground (arith, reported-to_slice (sort_slots (slots_from p.slot (range a.slots))))

-- What a promise reports for a slot.
pub handle_prepare-lookup :
    (range : Range) (a : Acceptor) (sent : List Output) (p : Prepare)
    → History a sent
    → Listing a.slots (range a.slots)
    → (handle_prepare range a p).2 ≡ true
    → (s : SlotId)
    → lookup s (by_id (reported (handle_prepare range a p).1.slots))
      ≡ (if leb_ℤ p.slot s then lookup s a.slots else none)
handle_prepare-lookup range a sent p h visits out s =
    rw (handle_prepare-slots range a p out)
      (collected-lookup a sent h (range a.slots) visits p.slot s)

pub handle_prepare-Ascending :
    (range : Range) (a : Acceptor) (sent : List Output) (p : Prepare)
    → History a sent
    → Listing a.slots (range a.slots)
    → (handle_prepare range a p).2 ≡ true
    → Ascending (reported (handle_prepare range a p).1.slots)
handle_prepare-Ascending range a sent p h visits out =
    rw (handle_prepare-slots range a p out)
      (collected-Ascending a sent h (range a.slots) visits p.slot)

-- A promise is from the acceptor and for the round of the prepare.
pub handle_prepare-sender :
    (range : Range) (a : Acceptor) (p : Prepare)
    → (handle_prepare range a p).2 ≡ true
    → ((handle_prepare range a p).1.from ≡ a.id) × ((handle_prepare range a p).1.rnd ≡ p.crnd)
unfolding handle_prepare
handle_prepare-sender range a p out = ground arith

-- Whatever messages a new acceptor has handled, and in whatever order its map is visited, a promise
-- lists its reports in ascending order of their slots, reports for every slot from the prepare's
-- on the vote of the highest round that the acceptor has sent a learn for (and nothing exactly
-- where it never voted), and reports no slot below the prepare's.
pub promise_reports_highest :
    (id : ℤ) (es : List Event) (range : Range) (p : Prepare)
    → let (a, sent) = run (new_acceptor id) [] es in
      Listing a.slots (range a.slots)
      → (handle_prepare range a p).2 ≡ true
      → let l = reported (handle_prepare range a p).1.slots in
        Ascending l
        × ((s : SlotId)
            → ((p.slot ≤ℤ s) × Recorded s (lookup s (by_id l)) sent)
              ⊎ ((s <ℤ p.slot) × (lookup s (by_id l) ≡ none)))
promise_reports_highest id es range p visits out = rw (handle_prepare-slots range a p out) (
  collected-Ascending a sent h (range a.slots) visits p.slot,
  λ s. elim (ordered p.slot s) [
    | inl up ↦ inl (up, subst (λ o. Recorded s o sent) (sym (found s up)) (h.recorded s))
    | inr below ↦ inr (
      below,
      collected-lookup a sent h (range a.slots) visits p.slot s ∙ rw (lt→geb p.slot s below),
    )
  ],
)
  where
    a : Acceptor
    a = (run (new_acceptor id) [] es).0

    sent : List Output
    sent = (run (new_acceptor id) [] es).1

    h : History a sent
    h = run-History (new_acceptor id) [] es (new-History id)

    ordered : (x y : ℤ) → (x ≤ℤ y) ⊎ (y <ℤ x)
    ordered x y = ground arith

    lt→geb : (x y : ℤ) → y <ℤ x → leb_ℤ x y ≡ false
    lt→geb x y q = ground arith

    found :
        (s : SlotId)
        → p.slot ≤ℤ s
        → lookup s (by_id (sort_slots (slots_from p.slot (range a.slots)))) ≡ lookup s a.slots
    found s up =
        collected-lookup a sent h (range a.slots) visits p.slot s ∙ rw (le→leb_ℤ p.slot s up)

-- The answer to a prepare does not depend on the order in which the run-time visits the map.
pub prepare_order_irrelevant :
    (id : ℤ) (es : List Event) (range range' : Range) (p : Prepare)
    → let a = (run (new_acceptor id) [] es).0 in
      Listing a.slots (range a.slots)
      → Listing a.slots (range' a.slots)
      → handle_prepare range a p ≡ handle_prepare range' a p
unfolding handle_prepare
prepare_order_irrelevant id es range range' p visits visits' = rw same
  where
    a : Acceptor
    a = (run (new_acceptor id) [] es).0

    sent : List Output
    sent = (run (new_acceptor id) [] es).1

    h : History a sent
    h = run-History (new_acceptor id) [] es (new-History id)

    same :
        sort_slots (slots_from p.slot (range a.slots))
        ≡ sort_slots (slots_from p.slot (range' a.slots))
    same =
        Ascending-unique _ _ (collected-Ascending a sent h (range a.slots) visits p.slot)
          (collected-Ascending a sent h (range' a.slots) visits' p.slot)
          (λ s.
            collected-lookup a sent h (range a.slots) visits p.slot s
            ∙ sym (collected-lookup a sent h (range' a.slots) visits' p.slot s))
