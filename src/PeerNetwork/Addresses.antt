-- ===== src/PeerNetwork/Addresses.antt =====
-- The texts of addresses in lab3/network/TCP.go: `addr.String()`, and the port that `RemovePort`,
-- `cleanupConn` and `getNodeIdFromRemoteAddr` read back from it.
use multi_paxos_work_in_prog.Common.{
  ℕ, zero, suc, ◌+◌, ◌-◌, ◌*◌, ◌/◌, ◌%◌, ◌^◌, ◌≤◌, ◌<◌, ltb, leb, nat_eq, ◌==◌, ℤ, pos, negsuc,
  Bool, true, false, ◌&&◌, ◌||◌, if◌then◌else◌, List, [], ◌∷◌, ◌++◌, Option, none, some, All, ◌≡◌,
  ◌≢◌, refl, arith, Bool-cases, inl, inr, ap, subst, ◌∙◌, nat_beq_iff,
}
use multi_paxos_work_in_prog.Common.Text.{Text, codes, digits, show_nat, show_int}
use multi_paxos_work_in_prog.PeerNetwork.{TcpAddr, colon}

-- `strings.Split(s, sep)` for a separator of one character
cons_first : ℕ → List Text → List Text
cons_first c [] = (c ∷ []) ∷ []
cons_first c (part ∷ parts) = (c ∷ part) ∷ parts

unfoldable pub split_at : ℕ → Text → List Text
unfolding cons_first
split_at sep [] = [] ∷ []
split_at sep (c ∷ s) =
    let rest = split_at sep s in if c == sep then [] ∷ rest else cons_first c rest

-- `split[len(split)-1]`; a split is never empty
unfoldable pub last : List Text → Text
last [] = []
last (part ∷ []) = part
last (part ∷ next ∷ parts) = last (next ∷ parts)

-- The number that the digits stand for after `acc`.
unfoldable pub read_digits : ℕ → Text → Option ℕ
read_digits acc [] = some acc
read_digits acc (c ∷ s) =
    let rest = read_digits (acc * 10 + (c - 48)) s in if leb 48 c && leb c 57 then rest else none

-- A number from 0 up as an `int`, and whether it is one.
abbrev clamp : ℕ → ℤ × Bool
clamp n = if ltb n (2 ^ 63) then (pos n, true) else (pos (2 ^ 63 - 1), false)

abbrev clamp_negative : ℕ → ℤ × Bool
clamp_negative zero = (pos 0, true)
clamp_negative (suc n) = if ltb n (2 ^ 63) then (negsuc n, true) else (negsuc (2 ^ 63 - 1), false)

abbrev digits_only : (ℕ → ℤ × Bool) → Text → ℤ × Bool
digits_only f [] = (pos 0, false)
digits_only f (c ∷ s) = elim (read_digits 0 (c ∷ s)) [ none ↦ (pos 0, false) | some n ↦ f n ]

-- `strconv.Atoi`, and whether it succeeds
unfoldable pub atoi : Text → ℤ × Bool
unfolding read_digits
atoi [] = (pos 0, false)
atoi (c ∷ s) =
    if c == 45
    then digits_only clamp_negative s
    else if c == 43
    then digits_only clamp s
    else digits_only clamp (c ∷ s)

has_colon : Text → Bool
has_colon [] = false
has_colon (c ∷ s) = (c == colon) || has_colon s

-- The host of an address in its text: one with colons stands in brackets.
unfoldable pub host_text : Option Text → Text
unfolding has_colon
host_text none = []
host_text (some ip) = if has_colon ip then codes "[" ++ ip ++ codes "]" else ip

-- `String` of an address; that of a nil one is "<nil>"
unfoldable pub addr_string : Option TcpAddr → Text
unfolding host_text show_int
addr_string none = codes "<nil>"
addr_string (some addr) = host_text addr.ip ++ colon ∷ show_int addr.port

-- `strconv.Atoi` of the last part of the text
unfoldable pub port_of : Text → ℤ × Bool
unfolding split_at last atoi
port_of text = atoi (last (split_at colon text))

split_at_none : (p : Text) → All (λ c. c ≢ colon) p → split_at colon p ≡ p ∷ []
unfolding split_at cons_first
split_at_none [] h = refl
split_at_none (c ∷ p) h = rw (split_at_none p h.1) (ground (arith, nat_beq_iff c colon))

-- Two parts or more, of which the last is what stands behind the last colon.
split_at-last :
    (h p : Text)
    → All (λ c. c ≢ colon) p
    → (first second : Text) × (parts : List Text) × (split_at colon (h ++ colon ∷ p)
        ≡ first ∷ second ∷ parts)
      × (last (second ∷ parts) ≡ p)
unfolding split_at cons_first last
split_at-last [] p a = ([], p, [], ap (λ l. [] ∷ l) (split_at_none p a), refl)
split_at-last (c ∷ h) p a =
    let (first, second, parts, e, l) = split_at-last h p a in
    elim (Bool-cases (c == colon)) [
      | inl t ↦ ([], first, second ∷ parts, rw (t, e) refl, l)
      | inr t ↦ (c ∷ first, second, parts, rw (t, e) refl, l)
    ]

last-split_at : (h p : Text) → All (λ c. c ≢ colon) p → last (split_at colon (h ++ colon ∷ p)) ≡ p
unfolding last
last-split_at h p a = let (first, second, parts, e, l) = split_at-last h p a in rw e l

digits-All : (f n : ℕ) (t : Text) → All (λ c. c ≢ colon) t → All (λ c. c ≢ colon) (digits f n t)
unfolding digits
digits-All zero n t a = a
digits-All (suc f) n t a = elim (Bool-cases (ltb n 10)) [
  | inl small ↦ rw small (λ e. ground arith, a)
  | inr large ↦ rw large (digits-All f (n / 10) _ (λ e. omega arith, a))
]

read_digits-digits : (f n : ℕ) (t : Text) → n < f → read_digits 0 (digits f n t) ≡ read_digits n t
unfolding digits read_digits
read_digits-digits zero n t h = absurd (omega arith)
read_digits-digits (suc f) n t h = ground (arith, read_digits-digits f (n / 10) ((48 + n % 10) ∷ t))

-- A numeral starts with a digit.
digits_head :
    (f n : ℕ) (t : Text)
    → n < f
    → (c : ℕ) × (s : Text) × (digits f n t ≡ c ∷ s) × (48 ≤ c) × (c ≤ 57)
unfolding digits
digits_head zero n t h = absurd (omega arith)
digits_head (suc f) n t h = elim (Bool-cases (ltb n 10)) [
  | inl small ↦ (48 + n, t, rw small refl, ground arith, ground arith)
  | inr large ↦
      let (c, s, e, low, high) = digits_head f (n / 10) ((48 + n % 10) ∷ t) (ground arith) in
      (c, s, rw large e, low, high)
]

atoi-digits :
    (c : ℕ) (s : Text) (n : ℕ)
    → 48 ≤ c
    → c ≤ 57
    → n < 2 ^ 63
    → read_digits 0 (c ∷ s) ≡ some n
    → atoi (c ∷ s) ≡ (pos n, true)
unfolding atoi
atoi-digits c s n low high range e = ground (arith, nat_beq_iff c 45, nat_beq_iff c 43)

atoi-show_nat : (n : ℕ) → n < 2 ^ 63 → atoi (show_nat n) ≡ (pos n, true)
unfolding show_nat read_digits
atoi-show_nat n h =
    let (c, s, e, low, high) = digits_head (suc n) n [] (omega arith) in
    let value : read_digits 0 (c ∷ s) ≡ some n =
      subst (λ t. read_digits 0 t ≡ some n) e (read_all n) in
    rw e (atoi-digits c s n low high h value)
  where
    read_all : (n : ℕ) → read_digits 0 (digits (suc n) n []) ≡ some n
    read_all n = read_digits-digits (suc n) n [] (omega arith)

-- The port is read back from a text that ends in it.
pub port_of_text :
    (host : Text) (n : ℕ) → n < 2 ^ 63 → port_of (host ++ colon ∷ show_nat n) ≡ (pos n, true)
unfolding port_of show_nat digits
port_of_text host n h = ap atoi (last-split_at host (show_nat n) (no_colon n)) ∙ atoi-show_nat n h
  where
    no_colon : (n : ℕ) → All (λ c. c ≢ colon) (show_nat n)
    no_colon n = digits-All (suc n) n [] tt

-- The port of an address, if it is an `int` from 0 up, is read back from the text of the address,
-- whatever its host is, without an error.
pub port_of-addr_string :
    (addr : TcpAddr) (n : ℕ)
    → addr.port ≡ pos n
    → n < 2 ^ 63
    → port_of (addr_string (some addr)) ≡ (pos n, true)
unfolding addr_string show_int
port_of-addr_string addr n e h = rw e (port_of_text (host_text addr.ip) n h)

-- That of a nil address reads as port 0.
pub port_of_nil : port_of (addr_string none) ≡ (pos 0, false)
unfolding port_of addr_string split_at cons_first last atoi read_digits
port_of_nil = refl
