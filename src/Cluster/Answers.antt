-- ===== src/Cluster/Answers.antt =====
-- Answers and their reports as lists: one per slot, one per node.
use multi_paxos_work_in_prog.Common.{
  ℕ, zero, suc, ◌+◌, int_eq, int_beq_iff, nat_eq, ◌≤ℤ◌, ◌<ℤ◌, Bool, true, false, if◌then◌else◌,
  List, [], ◌∷◌, Option, none, some, ◌≡◌, refl, ◌∙◌, ap, subst, inl, inr, arith, All, length, count,
  get_elem?,
}
use multi_paxos_work_in_prog.Common.GoMap.{lookup}
use multi_paxos_work_in_prog.Common.Quorums.{count_below}
use multi_paxos_work_in_prog.Paxos.{SlotId, Prepare, PromiseSlot, Promise}
use multi_paxos_work_in_prog.Paxos.Acceptor.Sorting.{by_id, Ascending}
use multi_paxos_work_in_prog.Paxos.Proposer.{Output, prepare_out, accept_out, server_leader}
use multi_paxos_work_in_prog.Paxos.Proposer.Quorum.{is_promised}
use multi_paxos_work_in_prog.Paxos.Proposer.Reports.{ReportedAs}
use multi_paxos_work_in_prog.Paxos.Proposer.Asking.{AskedUpTo}
use multi_paxos_work_in_prog.Cluster.{Answer, Among}

pub AskedUpTo-Among :
    (s : SlotId) (p : Prepare) (sent : List Output)
    → AskedUpTo s sent
    → Among (prepare_out p) sent
    → p.slot ≤ℤ s
AskedUpTo-Among s p [] h m = absurd m
AskedUpTo-Among s p (prepare_out q ∷ o) h (inl e) =
    let same : q ≡ p = cc e in subst (λ (x : Prepare). x.slot ≤ℤ s) same h.0
AskedUpTo-Among s p (prepare_out q ∷ o) h (inr m) = AskedUpTo-Among s p o h.1 m
AskedUpTo-Among s p (accept_out a ∷ o) h (inl e) = absurd (cc e)
AskedUpTo-Among s p (accept_out a ∷ o) h (inr m) = AskedUpTo-Among s p o h m
AskedUpTo-Among s p (server_leader l ∷ o) h (inl e) = absurd (cc e)
AskedUpTo-Among s p (server_leader l ∷ o) h (inr m) = AskedUpTo-Among s p o h m

pub lookup-ReportedAs :
    (s : SlotId) (q : PromiseSlot) (l : List PromiseSlot)
    → lookup s (by_id l) ≡ some q
    → ReportedAs s q l
unfolding lookup
lookup-ReportedAs s q [] h = cc h
lookup-ReportedAs s q (x ∷ l) h = ground (arith, int_beq_iff x.id s, lookup-ReportedAs s q l)

ReportedAs-above :
    (s t : SlotId) (q : PromiseSlot) (l : List PromiseSlot)
    → All (λ x. t <ℤ x.id) l
    → ReportedAs s q l
    → t <ℤ s
ReportedAs-above s t q [] a h = absurd h
ReportedAs-above s t q (x ∷ l) a (inl (e, _)) = subst (λ z. t <ℤ z) e a.0
ReportedAs-above s t q (x ∷ l) a (inr h) = ReportedAs-above s t q l a.1 h

-- Of reports in order, each is the one for its slot.
pub ReportedAs-lookup :
    (s : SlotId) (q : PromiseSlot) (l : List PromiseSlot)
    → Ascending l
    → ReportedAs s q l
    → lookup s (by_id l) ≡ some q
unfolding lookup
ReportedAs-lookup s q [] a h = absurd h
ReportedAs-lookup s q (x ∷ l) a (inl (e, same)) = ground (arith, int_beq_iff x.id s)
ReportedAs-lookup s q (x ∷ l) a (inr h) =
    ground
      (arith, int_beq_iff x.id s, ReportedAs-above s x.id q l a.0 h, ReportedAs-lookup s q l a.1 h)

-- the nodes whose promises are held
abbrev pub held : List (Option Promise) → ℕ → Bool
held [] i = false
held (o ∷ l) zero = is_promised o
held (o ∷ l) (suc i) = held l i

count_below-shift :
    (n : ℕ) (p : ℕ → Bool)
    → count_below (suc n) p ≡ (if p 0 then 1 else 0) + count_below n (λ i. p (suc i))
count_below-shift zero p = omega arith
count_below-shift (suc n) p = omega (arith, count_below-shift n p)

pub count_below-held :
    (l : List (Option Promise)) → count_below (length l) (held l) ≡ count is_promised l
count_below-held [] = refl
count_below-held (o ∷ l) =
    count_below-shift (length l) (held (o ∷ l))
    ∙ ap (λ k. (if is_promised o then 1 else 0) + k) (count_below-held l)

pub held-promise :
    (l : List (Option Promise)) (i : ℕ)
    → held l i ≡ true
    → (r : Promise) × (get_elem? l i ≡ some (some r))
held-promise [] i h = absurd (cc h)
held-promise (none ∷ l) zero h = absurd (cc h)
held-promise (some r ∷ l) zero h = (r, refl)
held-promise (o ∷ l) (suc i) h = held-promise l i h

-- One answer for each node whose promise is held.
pub choose :
    (test : ℕ → Bool) (P : ℕ → Answer → Type 0)
    → Answer
    → ((i : ℕ) → test i ≡ true → (a : Answer) × P i a)
    → (f : ℕ → Answer) × ((i : ℕ) → test i ≡ true → P i (f i))
choose test P default h = (λ i. (at i (test i) refl).0, λ i e. (at i (test i) refl).1 e)
  where
    at : (i : ℕ) (b : Bool) → test i ≡ b → (a : Answer) × (b ≡ true → P i a)
    at i true e = let (a, p) = h i e in (a, λ x. p)
    at i false e = (default, λ x. absurd (cc x))
