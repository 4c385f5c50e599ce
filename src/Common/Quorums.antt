-- ===== src/Common/Quorums.antt =====
-- Sets of nodes below a bound, as tests, and what two majorities share.
use Prim.Native.Nat.{ℕ, zero, suc, ◌+◌, ◌*◌, ◌<◌}
use mathlib.Core.Path.{◌≡◌, refl}
use mathlib.Core.Logic.{inl, inr}
use mathlib.Core.Bool.{Bool, true, false, ◌||◌}
use native.Mathlib.Omega.{arith}
use multi_paxos_work_in_prog.Common.Tests.{if◌then◌else◌, nat_beq, nat_beq_iff, Bool-cases}

-- how many numbers below `n` pass the test
abbrev pub count_below : ℕ → (ℕ → Bool) → ℕ
count_below zero p = 0
count_below (suc n) p = (if p n then 1 else 0) + count_below n p

abbrev pub IsMajority : ℕ → (ℕ → Bool) → Type 0
IsMajority n p = n < 2 * count_below n p

overlap :
    (n : ℕ) (p q : ℕ → Bool)
    → n < count_below n p + count_below n q
    → (i : ℕ) × (i < n) × (p i ≡ true) × (q i ≡ true)
overlap zero p q h = absurd (omega arith)
overlap (suc n) p q h = elim (Bool-cases (p n)) [
  | inl in_p ↦ elim (Bool-cases (q n)) [
    | inl in_q ↦ (n, omega arith, in_p, in_q)
    | inr not_q ↦ wider (overlap n p q (ground arith))
  ]
  | inr not_p ↦ wider (overlap n p q (ground arith))
]
  where
    wider :
        (i : ℕ) × (i < n) × (p i ≡ true) × (q i ≡ true)
        → (i : ℕ) × (i < suc n) × (p i ≡ true) × (q i ≡ true)
    wider (i, lt, a, b) = (i, omega arith, a, b)

-- Two majorities of the same nodes have a node in common.
pub majorities_meet :
    (n : ℕ) (p q : ℕ → Bool)
    → IsMajority n p
    → IsMajority n q
    → (i : ℕ) × (i < n) × (p i ≡ true) × (q i ≡ true)
majorities_meet n p q h k = overlap n p q (omega arith)

-- the test, passed by one number more
abbrev pub or_is : ℕ → (ℕ → Bool) → ℕ → Bool
or_is k p i = nat_beq k i || p i

count_below-or_is_above :
    (n k : ℕ) (p : ℕ → Bool) → ¬ (k < n) → count_below n (or_is k p) ≡ count_below n p
count_below-or_is_above zero k p h = refl
count_below-or_is_above (suc n) k p h =
    ground (arith, nat_beq_iff k n, count_below-or_is_above n k p (λ b. h (omega arith)))

pub count_below-or_is :
    (n k : ℕ) (p : ℕ → Bool)
    → k < n
    → p k ≡ false
    → count_below n (or_is k p) ≡ suc (count_below n p)
count_below-or_is zero k p h e = absurd (omega arith)
count_below-or_is (suc n) k p h e = elim (Bool-cases (nat_beq k n)) [
  | inl last ↦
      ground (
        arith,
        nat_beq_iff k n,
        count_below-or_is_above n k p (λ b. ground (arith, nat_beq_iff k n)),
      )
  | inr other ↦
      ground (arith, nat_beq_iff k n, count_below-or_is n k p (ground (arith, nat_beq_iff k n)) e)
]
