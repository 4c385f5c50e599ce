-- ===== src/Paxos/Learner/Senders.antt =====
-- Who has voted, by the map of a learner (lab6/multipaxos/learner.go).
use multi_paxos_work_in_prog.Common.{
  ℕ, ◌<◌, ℤ, int_eq, int_beq_iff, nat_eq, list_eq, list_beq_iff, ◌==◌, if◌then◌else◌, ◌&&◌, List,
  [], ◌∷◌, Option, none, some, All, count, length, arith, ◌≡◌, ◌≢◌, refl, ◌∙◌, sym, Bool-cases, inl,
  inr, subst,
}
use multi_paxos_work_in_prog.Common.GoMap.{
  GoMap, lookup, insert, lookup-head, Distinct, insert-Distinct, Listing, All-Listing, All-lookup,
}
use multi_paxos_work_in_prog.Common.Text.{Text}
use multi_paxos_work_in_prog.Paxos.{SlotId, Round, Value, Learn}
use multi_paxos_work_in_prog.Paxos.Learner.{
  Orders, Learner, joined_key, is_newer, put_learn, remove_learn, new_learner,
}
use multi_paxos_work_in_prog.Paxos.Learner.Tallies.{in_both}
use multi_paxos_work_in_prog.Paxos.Learner.Values.{
  unless_in, remove_learn-lookup, remove_learn-Distinct, AllRunes, IsRune, ValueIn,
}

-- Every learn stands under the key of its sender and slot.
abbrev pub Keyed : GoMap Text Learn → Type 0
Keyed = All (λ e. e.0 ≡ joined_key e.1.from e.1.slot)

-- the senders of the learns of a round for a slot
abbrev pub voters : Round → SlotId → GoMap Text Learn → List ℤ
voters r s [] = []
voters r s ((k, x) ∷ m) =
    let rest = voters r s m in if (x.rnd == r) && (x.slot == s) then x.from ∷ rest else rest

abbrev pub Unique : List ℤ → Type 0
Unique [] = Unit {0}
Unique (a ∷ l) = All (λ b. b ≢ a) l × Unique l

pub length-voters :
    (r : Round) (s : SlotId) (m : GoMap Text Learn) → length (voters r s m) ≡ count (in_both r s) m
length-voters r s [] = refl
length-voters r s ((k, x) ∷ m) = ground (arith, length-voters r s m)

voters-absent :
    (r : Round) (s : SlotId) (m : GoMap Text Learn) (from : ℤ)
    → Keyed m
    → lookup (joined_key from s) m ≡ none
    → All (λ b. b ≢ from) (voters r s m)
unfolding lookup
voters-absent r s [] from k h = tt
voters-absent r s ((j, x) ∷ m) from k h =
    ground (
      arith,
      int_beq_iff x.slot s,
      list_beq_iff j (joined_key from s),
      voters-absent r s m from k.1,
    )

-- The learns of a round for a slot are from different senders.
pub voters-Unique :
    (r : Round) (s : SlotId) (m : GoMap Text Learn) → Distinct m → Keyed m → Unique (voters r s m)
voters-Unique r s [] d k = tt
voters-Unique r s ((j, x) ∷ m) d k =
    ground
      (arith, int_beq_iff x.slot s, voters-absent r s m x.from k.1, voters-Unique r s m d.1 k.1)

pub insert-All {μ} :
    (P : Text × Learn → Type μ) (k : Text) (x : Learn) (m : GoMap Text Learn)
    → All P m
    → P (k, x)
    → All P (insert k x m)
unfolding insert
insert-All P k x [] a p = (p, tt)
insert-All P k x ((j, y) ∷ m) a p = elim (Bool-cases (j == k)) [
  | inl hit ↦ rw hit (subst (λ i. P (i, x)) (sym ((list_beq_iff j k).0 hit)) p, a.1)
  | inr miss ↦ rw miss (a.0, insert-All P k x m a.1 p)
]

pub record IsValid (l : Learner) : Type 0 where
  pub distinct : Distinct l.learns
  pub keyed : Keyed l.learns
  pub positive : 0 < l.quorum

pub new-IsValid : (id : ℤ) (n : ℕ) → IsValid (new_learner id n)
unfolding new_learner
new-IsValid id n = record { distinct = tt; keyed = tt; positive = omega arith }

pub put-IsValid :
    (l : Learner) (x : Learn) → IsValid l → IsValid (record l { learns = put_learn l.learns x })
unfolding put_learn
put-IsValid l x v = elim (Bool-cases (is_newer (lookup (joined_key x.from x.slot) l.learns) x)) [
  | inr old ↦ record {
    distinct = rw (old, put_learn) v.distinct;
    keyed = rw (old, put_learn) v.keyed;
    positive = v.positive;
  }
  | inl new ↦ record {
    distinct =
        rw (new, put_learn) (insert-Distinct (joined_key x.from x.slot) x l.learns v.distinct);
    keyed =
        rw (new, put_learn)
          (insert-All (λ e. e.0 ≡ joined_key e.1.from e.1.slot) (joined_key x.from x.slot) x
            l.learns v.keyed refl);
    positive = v.positive;
  }
]

pub unless_in-some :
    (r : Round) (s : SlotId) (o : Option Learn) (x : Learn) → unless_in r s o ≡ some x → o ≡ some x
unless_in-some r s none x h = h
unless_in-some r s (some y) x h = ground arith

pub remove_learn-quorum :
    (o : Orders) (l : Learner) (r : Round) (s : SlotId) → (remove_learn o l r s).quorum ≡ l.quorum
unfolding remove_learn
remove_learn-quorum o l r s = refl

pub remove-IsValid :
    (o : Orders) (l : Learner) (r : Round) (s : SlotId)
    → Listing l.learns (o.of_removal l.learns)
    → IsValid l
    → IsValid (remove_learn o l r s)
remove-IsValid o l r s visits v = record {
  distinct = remove_learn-Distinct o l r s v.distinct;
  keyed =
      All-Listing (λ e. e.0 ≡ joined_key e.1.from e.1.slot) (remove_learn o l r s).learns
        (remove_learn-Distinct o l r s v.distinct)
        (λ k x q.
          All-lookup (λ e. e.0 ≡ joined_key e.1.from e.1.slot) l.learns v.keyed k x
            (unless_in-some r s (lookup k l.learns) x
              (sym (remove_learn-lookup o l r s visits k) ∙ q)));
  positive = rw (remove_learn-quorum o l r s) v.positive;
}

pub Listing-AllRunes : (m l : GoMap Text Learn) → Listing m l → AllRunes m → AllRunes l
Listing-AllRunes m l h a =
    All-Listing (λ e. IsRune e.1.rnd × IsRune e.1.slot) l h.distinct
      (λ k x q. All-lookup (λ e. IsRune e.1.rnd × IsRune e.1.slot) m a k x (sym (h.same k) ∙ q))

ValueIn-lookup :
    (r : Round) (s : SlotId) (v : Value) (l : GoMap Text Learn)
    → Distinct l
    → ValueIn r s v l
    → (k : Text) × (x : Learn) × (lookup k l ≡ some x) × (x.rnd ≡ r) × (x.slot ≡ s) × (x.val ≡ v)
ValueIn-lookup r s v [] d i = absurd i
ValueIn-lookup r s v ((k, x) ∷ l) d (inl h) = (k, x, lookup-head k x l, h.0, h.1, h.2)
ValueIn-lookup r s v ((k, x) ∷ l) d (inr i) =
    let (j, y, e, p, q, w) = ValueIn-lookup r s v l d.1 i in (j, y, under j y e, p, q, w)
  where
    under : (j : Text) (y : Learn) → lookup j l ≡ some y → lookup j ((k, x) ∷ l) ≡ some y
    under j y e = unfold lookup in ground (arith, list_beq_iff k j, d.0)

lookup-ValueIn :
    (l : GoMap Text Learn) (k : Text) (x : Learn)
    → lookup k l ≡ some x
    → ValueIn x.rnd x.slot x.val l
unfolding lookup
lookup-ValueIn [] k x h = absurd (cc)
lookup-ValueIn ((j, y) ∷ l) k x h = elim (Bool-cases (j == k)) [
  | inl hit ↦ inl (ground arith, ground arith, ground arith)
  | inr miss ↦ inr (lookup-ValueIn l k x (ground arith))
]

pub Listing-ValueIn :
    (r : Round) (s : SlotId) (v : Value) (m l : GoMap Text Learn)
    → Listing m l
    → ValueIn r s v l
    → ValueIn r s v m
Listing-ValueIn r s v m l h i =
    let (k, x, e, p, q, w) = ValueIn-lookup r s v l h.distinct i in
    same_place p q w (lookup-ValueIn m k x (sym (h.same k) ∙ e))
  where
    same_place :
        {a : Round} {b : SlotId} {c : Value}
        → a ≡ r
        → b ≡ s
        → c ≡ v
        → ValueIn a b c m
        → ValueIn r s v m
    same_place {b} {c} p q w i =
        subst (λ z. ValueIn r s z m) w
          (subst (λ z. ValueIn r z c m) q (subst (λ z. ValueIn z b c m) p i))
