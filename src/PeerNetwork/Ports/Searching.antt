-- ===== src/PeerNetwork/Ports/Searching.antt =====
-- lab3/network/TCP.go: the loop of `getClientAddr`.
use multi_paxos_work_in_prog.Common.{
  ℕ, zero, suc, ◌+◌, ◌≤◌, ◌≤ℤ◌, ◌<ℤ◌, ◌+ℤ◌, leb_ℤ, ℤ, pos, pos_part, neg_part, true, false, subst,
  eq_of_parts, List, Option, none, some, ◌≡◌, refl, arith, Bool-cases, ◌⊎◌, inl, inr, leb_ℤ-le,
  leb_ℤ-gt, int_laws,
}
use multi_paxos_work_in_prog.Common.Int.{InRange, add_int_lem}
use multi_paxos_work_in_prog.PeerNetwork.{Node}
use multi_paxos_work_in_prog.PeerNetwork.Ports.{is_used, find_port, port_fuel}

-- Every port from `low` up to, but not, `high` is in use.
abbrev pub Taken : ℤ → ℤ → List ℤ → Type 0
Taken low high used = (port : ℤ) → low ≤ℤ port → port <ℤ high → is_used port used ≡ true

-- The first free port.
pub record FirstFree (low high : ℤ) (used : List ℤ) (port : ℤ) : Type 0 where
  pub from_low : low ≤ℤ port
  pub to_high : port ≤ℤ high
  pub free : is_used port used ≡ false
  pub first : Taken low port used

-- What the loop finds: the first free port, or nothing where all of them are in use.
abbrev pub Found : ℤ → ℤ → List ℤ → Option (Option ℤ) → Type 0
Found low high used none = ⊥
Found low high used (some none) = Taken low (high +ℤ pos 1) used
Found low high used (some (some port)) = FirstFree low high used port

-- the loop ends within the fuel
abbrev pub Enough : ℕ → ℤ → ℤ → Type 0
Enough fuel i max =
    (1 ≤ fuel) × (i ≤ℤ max → pos_part max + neg_part i + 2 ≤ fuel + pos_part i + neg_part max)

Taken-more :
    (i high : ℤ) (used : List ℤ)
    → is_used i used ≡ true
    → Taken (i +ℤ pos 1) high used
    → Taken i high used
Taken-more i high used busy t port from to = elim (Bool-cases (leb_ℤ port i)) [
  | inl low ↦
      subst (λ p. is_used p used ≡ true)
        (eq_of_parts i port (let le = leb_ℤ-le port i low in omega arith)) busy
  | inr above ↦ t port (let gt = leb_ℤ-gt port i above in grind int_laws) to
]

Found-more :
    (i max : ℤ) (used : List ℤ) (found : Option (Option ℤ))
    → is_used i used ≡ true
    → Found (i +ℤ pos 1) max used found
    → Found i max used found
Found-more i max used none busy f = f
Found-more i max used (some none) busy t = Taken-more i (max +ℤ pos 1) used busy t
Found-more i max used (some (some port)) busy f = record {
  from_low = let low = f.from_low in grind int_laws;
  to_high = f.to_high;
  free = f.free;
  first = Taken-more i port used busy f.first;
}

nothing_left : (i max port : ℤ) → max <ℤ i → i ≤ℤ port → port <ℤ max +ℤ pos 1 → ⊥
nothing_left i max port over from to = grind int_laws

pub find_port-Found :
    (fuel : ℕ) (i max : ℤ) (used : List ℤ)
    → InRange i
    → InRange (max +ℤ pos 1)
    → Enough fuel i max
    → Found i max used (find_port fuel i max used)
unfolding find_port
find_port-Found zero i max used ri rm e = absurd (omega arith)
find_port-Found (suc fuel) i max used ri rm e = elim (Bool-cases (leb_ℤ i max)) [
  | inl inside ↦ elim (Bool-cases (is_used i used)) [
    | inl busy ↦
        let le = leb_ℤ-le i max inside in
        rw (inside, busy, add_int_lem i (pos 1) (grind int_laws))
          (Found-more i max used _ busy
            (find_port-Found fuel (i +ℤ pos 1) max used (grind int_laws) rm (grind int_laws)))
    | inr free ↦
        rw (inside, free)
          (record {
            from_low = omega arith;
            to_high = leb_ℤ-le i max inside;
            free = free;
            first = λ port from to. absurd (omega arith);
          })
  ]
  | inr over ↦
      let gt = leb_ℤ-gt i max over in
      rw over (λ port from to. absurd (nothing_left i max port gt from to))
]

pub port_fuel-Enough :
    (node : Node) → Enough (port_fuel node) node.client_port_min node.client_port_max
unfolding port_fuel
port_fuel-Enough node = (omega arith, λ le. grind int_laws)

pub Found-cases :
    (low high : ℤ) (used : List ℤ) (o : Option (Option ℤ))
    → Found low high used o
    → ((o ≡ some none) × Taken low (high +ℤ pos 1) used)
      ⊎ ((port : ℤ) × (o ≡ some (some port)) × FirstFree low high used port)
Found-cases low high used none f = absurd f
Found-cases low high used (some none) f = inl (refl, f)
Found-cases low high used (some (some port)) f = inr (port, refl, f)
