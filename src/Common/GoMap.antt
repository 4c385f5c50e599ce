-- ===== src/Common/GoMap.antt =====
-- Go's `map[K]V` as an association list. `range` visits the entries in an order that the run-time
-- chooses: a traversal is any list of the same entries, each key once (`Listing`).
use Prim.Native.Nat.{◌+◌}
use mathlib.Core.Path.{◌≡◌, refl, ◌∙◌, subst}
use mathlib.Core.Logic.{◌↔◌}
use mathlib.Core.Bool.{Bool, true, false}
use mathlib.Core.Option.{Option, none, some}
use mathlib.Core.List.{List, [], ◌∷◌}
use native.Mathlib.Omega.{arith}
use multi_paxos_work_in_prog.Common.Tests.{if◌then◌else◌}
use multi_paxos_work_in_prog.Common.Lists.{All, count}
use multi_paxos_work_in_prog.Common.Classes.{Comparable, ◌==◌}

abbrev pub GoMap {ℓ κ} : Type ℓ → Type κ → Type (ℓ ⊔ κ)
GoMap K V = List (K × V)

module _ {ℓ κ} {K : Type ℓ} {V : Type κ} ⦃e : Comparable K⦄ where
  -- `v, ok := entries[key]`
  unfoldable pub lookup : K → GoMap K V → Option V
  lookup key [] = none
  lookup key ((other, held) ∷ entries) =
      let rest = lookup key entries in if other == key then some held else rest

  -- `entries[key] = new`
  unfoldable pub insert : K → V → GoMap K V → GoMap K V
  insert key new [] = (key, new) ∷ []
  insert key new ((other, held) ∷ entries) =
      let rest = insert key new entries in
      if other == key then (other, new) ∷ entries else (other, held) ∷ rest

  -- `delete(entries, key)`
  unfoldable pub delete : K → GoMap K V → GoMap K V
  delete key [] = []
  delete key ((other, held) ∷ entries) =
      let rest = delete key entries in if other == key then rest else (other, held) ∷ rest

  pub lookup-insert :
      (key sought : K) (new : V) (entries : GoMap K V)
      → lookup sought (insert key new entries)
        ≡ (if key == sought then some new else lookup sought entries)
  unfolding insert lookup
  lookup-insert key sought new [] = refl
  lookup-insert key sought new ((other, held) ∷ entries) =
      let later = lookup-insert key sought new entries in
      ground (arith, later, e.equal_iff other sought, e.equal_iff other key, e.equal_iff key sought)

  pub lookup-delete :
      (k j : K) (m : GoMap K V) → lookup j (delete k m) ≡ (if k == j then none else lookup j m)
  unfolding lookup delete
  lookup-delete k j [] = ground arith
  lookup-delete k j ((i, w) ∷ m) =
      ground (arith, e.equal_iff k j, e.equal_iff i k, e.equal_iff i j, lookup-delete k j m)

  -- No key is bound twice.
  abbrev pub Distinct : GoMap K V → Type κ
  Distinct [] = Unit
  Distinct ((k, v) ∷ m) = (lookup k m ≡ none) × Distinct m

  pub insert-Distinct : (k : K) (v : V) (m : GoMap K V) → Distinct m → Distinct (insert k v m)
  unfolding lookup insert
  insert-Distinct k v [] d = (refl, tt)
  insert-Distinct k v ((i, w) ∷ m) d =
      ground
        (arith, e.equal_iff k i, e.equal_iff i k, lookup-insert k i v m, insert-Distinct k v m d.1)

  pub delete-Distinct : (k : K) (m : GoMap K V) → Distinct m → Distinct (delete k m)
  unfolding delete
  delete-Distinct k [] d = tt
  delete-Distinct k ((i, w) ∷ m) d =
      ground (arith, e.equal_iff k i, e.equal_iff i k, lookup-delete k i m, delete-Distinct k m d.1)

  -- `l` lists the entries of `m`, each once: what a traversal of `m` visits.
  pub record Listing (m l : GoMap K V) : Type (ℓ ⊔ κ) where
    pub distinct : Distinct l
    pub same : (k : K) → lookup k l ≡ lookup k m

  pub Listing-refl : (m : GoMap K V) → Distinct m → Listing m m
  Listing-refl m d = record { distinct = d; same = λ k. refl }

  pub delete-absent : (k : K) (m : GoMap K V) → lookup k m ≡ none → delete k m ≡ m
  unfolding lookup delete
  delete-absent k [] h = refl
  delete-absent k ((i, w) ∷ m) h = ground (arith, delete-absent k m)

  pub delete-Listing : (k : K) (m l : GoMap K V) → Listing m l → Listing (delete k m) (delete k l)
  delete-Listing k m l h = record {
    distinct = delete-Distinct k l h.distinct;
    same = λ j. rw (lookup-delete k j l, lookup-delete k j m, h.same j);
  }

  pub delete-head : (k : K) (v : V) (m : GoMap K V) → lookup k m ≡ none → delete k ((k, v) ∷ m) ≡ m
  unfolding delete
  delete-head k v m h = ground (arith, e.equal_iff k k, delete-absent k m)

  pub lookup-head : (k : K) (v : V) (m : GoMap K V) → lookup k ((k, v) ∷ m) ≡ some v
  unfolding lookup
  lookup-head k v m = ground (arith, e.equal_iff k k)

  -- Removing a bound key takes one entry off a count.
  pub count-delete :
      (p : K × V → Bool) (k : K) (v : V) (l : GoMap K V)
      → Distinct l
      → lookup k l ≡ some v
      → count p l ≡ (if p (k, v) then 1 else 0) + count p (delete k l)
  unfolding lookup delete
  count-delete p k v [] d h = cc
  count-delete p k v ((i, w) ∷ l) d h =
      ground (arith, e.equal_iff i k, delete-absent k l, count-delete p k v l d.1)

  lookup-none-empty : (l : GoMap K V) → ((k : K) → lookup k l ≡ none) → l ≡ []
  lookup-none-empty [] h = refl
  lookup-none-empty ((k, v) ∷ l) h = cc (h k, lookup-head k v l)

  -- A count over a traversal does not depend on its order.
  pub count-Listing :
      (p : K × V → Bool) (m l : GoMap K V) → Distinct m → Listing m l → count p l ≡ count p m
  unfolding lookup
  count-Listing p [] l d h = rw (lookup-none-empty l (λ k. h.same k)) refl
  count-Listing p ((k, v) ∷ m) l d h =
      let found : lookup k l ≡ some v = h.same k ∙ lookup-head k v m in
      let rest : Listing m (delete k l) =
        subst (λ x. Listing x (delete k l)) (delete-head k v m d.0)
          (delete-Listing k ((k, v) ∷ m) l h) in
      omega (arith, count-delete p k v l h.distinct found, count-Listing p m (delete k l) d.1 rest)

  pub All-lookup {μ} :
      (P : K × V → Type μ) (m : GoMap K V)
      → All P m
      → (k : K) (v : V) → lookup k m ≡ some v
      → P (k, v)
  unfolding lookup
  All-lookup P [] a k v h = cc
  All-lookup P ((i, w) ∷ m) a k v h =
      All_at (i == k) (e.equal_iff i k) (λ q. All-lookup P m a.1 k v q) h
    where
      All_at :
          (b : Bool)
          → (b ≡ true) ↔ (i ≡ k)
          → (lookup k m ≡ some v → P (k, v))
          → (if b then some w else lookup k m) ≡ some v
          → P (k, v)
      All_at true t rest q = subst (λ x. P x) (cc (t.0 refl)) a.0
      All_at false t rest q = rest q

  pub All-Listing {μ} :
      (P : K × V → Type μ) (l : GoMap K V)
      → Distinct l
      → ((k : K) (v : V) → lookup k l ≡ some v → P (k, v))
      → All P l
  unfolding lookup
  All-Listing P [] d f = tt
  All-Listing P ((k, v) ∷ l) d f =
      (f k v (lookup-head k v l), All-Listing P l d.1 (λ j w q. f j w (under j w q)))
    where
      under : (j : K) (w : V) → lookup j l ≡ some w → lookup j ((k, v) ∷ l) ≡ some w
      under j w q = ground (arith, e.equal_iff k j, d.0)
