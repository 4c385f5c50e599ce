-- ===== src/Common/Classes.antt =====
-- Equality tests as an interface: what the keys of a Go map have.
use mathlib.Core.Path.{◌≡◌}
use mathlib.Core.Logic.{◌↔◌}
use mathlib.Core.Bool.{Bool, true, false, ◌&&◌}
use mathlib.Core.List.{List, [], ◌∷◌}
use Prim.Native.Nat.{ℕ}
use native.Mathlib.Omega.{arith}
use multi_paxos_work_in_prog.Common.Tests.{nat_beq, nat_beq_iff}

-- What the Go specification calls a comparable type.
pub record Comparable {κ} (K : Type κ) : Type κ where
  pub equal : K → K → Bool
  pub equal_iff : (x y : K) → (equal x y ≡ true) ↔ (x ≡ y)

infix 50 ◌==◌
abbrev pub ◌==◌ {κ} : {K : Type κ} ⦃c : Comparable K⦄ → K → K → Bool
◌==◌ ⦃c⦄ a b = c.equal a b

instance abbrev pub nat_eq : Comparable ℕ
nat_eq = record { equal_iff = nat_beq_iff; equal = nat_beq }

module _ {κ} {K : Type κ} ⦃c : Comparable K⦄ where
  unfoldable pub list_beq : List K → List K → Bool
  list_beq [] [] = true
  list_beq (a ∷ l) (b ∷ m) = (a == b) && list_beq l m
  list_beq _ _ = false

  pub list_beq_iff : (l m : List K) → (list_beq l m ≡ true) ↔ (l ≡ m)
  unfolding list_beq
  list_beq_iff [] [] = ground arith
  list_beq_iff [] (b ∷ m) = ground arith
  list_beq_iff (a ∷ l) [] = ground arith
  list_beq_iff (a ∷ l) (b ∷ m) = ground (arith, list_beq_iff l m, c.equal_iff a b)

instance abbrev pub list_eq {κ} : {K : Type κ} ⦃c : Comparable K⦄ → Comparable (List K)
list_eq = record { equal_iff = list_beq_iff; equal = list_beq }
