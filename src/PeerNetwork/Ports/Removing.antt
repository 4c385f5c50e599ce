-- ===== src/PeerNetwork/Ports/Removing.antt =====
-- lab3/network/TCP.go: `RemovePort` and `cleanupConn` shorten the slice of ports that they range
-- over, on the array that both share.
use multi_paxos_work_in_prog.Common.{
  ℕ, suc, ◌-◌, ◌==◌, int_eq, ℤ, true, false, not, List, [], ◌∷◌, ◌++◌, length, length-append,
  select, take, drop, get_elem?, get_elem?-append, take-length, take_front, drop_at, some, ◌≡◌,
  refl, arith, ap, sym, subst, ◌∙◌, ◌<◌, Bool-cases, inl, inr, le→leb,
}
use mathlib.Core.List.{append_assoc}
use multi_paxos_work_in_prog.Common.Int.{int_beq_iff}
use multi_paxos_work_in_prog.PeerNetwork.Ports.{is_used, close_gap, remove_from, remove_used}

-- No port twice.
abbrev pub Unique : List ℤ → Type 0
Unique [] = Unit
Unique (port ∷ ports) = (is_used port ports ≡ false) × Unique ports

-- The ports but `port`.
abbrev pub without : ℤ → List ℤ → List ℤ
without port = select λ used. not (used == port)

module _ (before : List ℤ) (x : ℤ) (behind : List ℤ) where
  at_place : get_elem? (before ++ x ∷ behind) (length before) ≡ some x
  at_place =
      subst (λ n. get_elem? (before ++ x ∷ behind) n ≡ some x) (omega arith)
        (get_elem?-append before (x ∷ behind) 0)

  -- the place after one more
  next_place :
      (left : ℕ) (port : ℤ) (len : ℕ)
      → remove_from left (suc (length before)) port (before ++ x ∷ behind) len
        ≡ remove_from left (length (before ++ x ∷ [])) port ((before ++ x ∷ []) ++ behind) len
  next_place left port len =
      let more : length (before ++ x ∷ []) ≡ suc (length before) =
        omega (arith, length-append before (x ∷ [])) in
      cc (more, append_assoc before (x ∷ []) behind)

  -- One round of the loop at a place that holds another port,
  keep_place :
      (left : ℕ) (port : ℤ) (len : ℕ)
      → (port == x) ≡ false
      → remove_from (suc left) (length before) port (before ++ x ∷ behind) len
        ≡ remove_from left (length (before ++ x ∷ [])) port ((before ++ x ∷ []) ++ behind) len
  unfolding remove_from
  keep_place left port len other = rw (at_place, other) (next_place left port len)

  -- and at the place that holds the port.
  clear_place :
      (left : ℕ) (port : ℤ) (len : ℕ)
      → (port == x) ≡ true
      → length before < len
      → remove_from (suc left) (length before) port (before ++ x ∷ behind) len
        ≡ remove_from left
            (suc (length before))
            port
            (close_gap (before ++ x ∷ behind) len (length before))
            (len - 1)
  unfolding remove_from
  clear_place left port len same inside =
      rw (at_place, same, le→leb (suc (length before)) len (omega arith)) refl

-- The loop does nothing at the places behind `before` where the port is not there.
remove_from_unused :
    (before behind : List ℤ) (port : ℤ) (len : ℕ)
    → is_used port behind ≡ false
    → remove_from (length behind) (length before) port (before ++ behind) len
      ≡ some (take len (before ++ behind))
unfolding is_used remove_from
remove_from_unused before [] port len h = refl
remove_from_unused before (x ∷ behind) port len h =
    let other : (port == x) ≡ false = ground (arith, int_beq_iff port x, int_beq_iff x port) in
    keep_place before x behind (length behind) port len other
    ∙ remove_from_unused (before ++ x ∷ []) behind port len (ground arith)
    ∙ ap (λ l. some (take len l)) (append_assoc before (x ∷ []) behind)

-- The gap closes over the port at the place behind `before`.
close_gap-append :
    (before : List ℤ) (x : ℤ) (behind : List ℤ)
    → close_gap (before ++ x ∷ behind) (length (before ++ x ∷ behind)) (length before)
      ≡ before ++ behind ++ drop (length behind) (x ∷ behind)
unfolding close_gap
close_gap-append before x behind =
    let total = length-append before (x ∷ behind) in
    rw
      (
        take-length (before ++ x ∷ behind),
        take_front before (x ∷ behind),
        drop_at before (x ∷ behind) 1 (suc (length before)) (omega arith),
        drop_at before (x ∷ behind) (length behind) (length (before ++ x ∷ behind) - 1)
            (omega arith),
      )
      refl

-- The last place keeps a port of those behind the gap.
drop_last-unused :
    (port x : ℤ) (behind : List ℤ)
    → is_used port (x ∷ behind) ≡ false
    → is_used port (drop (length behind) (x ∷ behind)) ≡ false
unfolding is_used
drop_last-unused port x [] h = h
drop_last-unused port x (y ∷ behind) h = drop_last-unused port y behind (ground arith)

drop_last-length : (x : ℤ) (behind : List ℤ) → length (drop (length behind) (x ∷ behind)) ≡ 1
drop_last-length x [] = refl
drop_last-length x (y ∷ behind) = drop_last-length y behind

is_used-append :
    (port : ℤ) (l m : List ℤ)
    → is_used port l ≡ false
    → is_used port m ≡ false
    → is_used port (l ++ m) ≡ false
unfolding is_used
is_used-append port [] m h k = k
is_used-append port (x ∷ l) m h k = ground (arith, is_used-append port l m)

pub without_unused : (port : ℤ) (l : List ℤ) → is_used port l ≡ false → without port l ≡ l
unfolding is_used
without_unused port [] h = refl
without_unused port (x ∷ l) h = ground (arith, without_unused port l)

remove_from_end :
    (i : ℕ) (port : ℤ) (array : List ℤ) (len : ℕ)
    → remove_from 0 i port array len ≡ some (take len array)
unfolding remove_from
remove_from_end i port array len = refl

is_used_tail : (port x : ℤ) (l : List ℤ) → is_used port (x ∷ l) ≡ false → is_used port l ≡ false
unfolding is_used
is_used_tail port x l h = ground arith

-- The rest of the loop after the gap has closed over the port.
remove_from_closed :
    (before behind : List ℤ) (port x : ℤ)
    → is_used port behind ≡ false
    → remove_from
        (length behind)
        (suc (length before))
        port
        (before ++ behind ++ drop (length behind) (x ∷ behind))
        (length (before ++ behind))
      ≡ some (before ++ behind)
remove_from_closed before [] port x h =
    remove_from_end (suc (length before)) port (before ++ [] ++ x ∷ []) (length (before ++ []))
    ∙ ap some (take_front (before ++ []) (x ∷ []))
remove_from_closed before (y ∷ behind) port x h =
    let end = drop (length behind) (y ∷ behind) in
    let left : length (behind ++ end) ≡ suc (length behind) =
      omega (arith, length-append behind end, drop_last-length y behind) in
    let len = length (before ++ y ∷ behind) in
    let unused =
      is_used-append port behind end (is_used_tail port y behind h)
        (drop_last-unused port y behind h) in
    let moved = append_assoc before (y ∷ behind) end in
    ap (λ l. remove_from (suc (length behind)) (suc (length before)) port l len) moved
    ∙ next_place before y (behind ++ end) (suc (length behind)) port len
    ∙ subst
        (λ k.
          remove_from k (length (before ++ y ∷ [])) port ((before ++ y ∷ []) ++ (behind ++ end)) len
          ≡ some (take len ((before ++ y ∷ []) ++ (behind ++ end))))
        left (remove_from_unused (before ++ y ∷ []) (behind ++ end) port len unused)
    ∙ ap (λ l. some (take len l)) (append_assoc before (y ∷ []) (behind ++ end) ∙ sym moved)
    ∙ ap some (take_front (before ++ y ∷ behind) end)

-- The loop, from the place behind `before` on.
remove_from-without :
    (before behind : List ℤ) (port : ℤ)
    → Unique behind
    → remove_from
        (length behind)
        (length before)
        port
        (before ++ behind)
        (length (before ++ behind))
      ≡ some (before ++ without port behind)
remove_from-without before [] port u =
    remove_from_end (length before) port (before ++ []) (length (before ++ []))
    ∙ ap some (take-length (before ++ []))
remove_from-without before (x ∷ behind) port u =
    let all = before ++ x ∷ behind in
    let total = length-append before (x ∷ behind) in
    elim (Bool-cases (port == x)) [
      | inl same ↦
          let unused : is_used port behind ≡ false = cc (u.0, (int_beq_iff port x).0 same) in
          let shorter : length all - 1 ≡ length (before ++ behind) =
            omega (arith, total, length-append before behind) in
          let hit : (x == port) ≡ true = ground (arith, int_beq_iff port x, int_beq_iff x port) in
          clear_place before x behind (length behind) port (length all) same (omega arith)
          ∙ rw (close_gap-append before x behind, shorter) refl
          ∙ remove_from_closed before behind port x unused
          ∙ ap (λ l. some (before ++ l)) (rw hit (sym (without_unused port behind unused)))
      | inr other ↦
          let miss : (x == port) ≡ false = ground (arith, int_beq_iff port x, int_beq_iff x port) in
          let moved = append_assoc before (x ∷ []) behind in
          keep_place before x behind (length behind) port (length all) other
          ∙ subst
              (λ l.
                remove_from (length behind) (length (before ++ x ∷ [])) port
                  ((before ++ x ∷ []) ++ behind) (length l)
                ≡ some ((before ++ x ∷ []) ++ without port behind))
              moved (remove_from-without (before ++ x ∷ []) behind port u.1)
          ∙ ap some (append_assoc before (x ∷ []) (without port behind))
          ∙ ap (λ l. some (before ++ l)) (rw miss refl)
    ]

-- On a node that uses no port twice, exactly the given port is taken out, and nothing panics.
pub remove_used-without :
    (port : ℤ) (ports : List ℤ) → Unique ports → remove_used port ports ≡ some (without port ports)
unfolding remove_used
remove_used-without port ports u = remove_from-without [] ports port u

is_used-without :
    (port other : ℤ) (ports : List ℤ)
    → is_used other ports ≡ false
    → is_used other (without port ports) ≡ false
unfolding is_used
is_used-without port other [] h = refl
is_used-without port other (x ∷ ports) h = ground (arith, is_used-without port other ports)

pub without-Unique : (port : ℤ) (ports : List ℤ) → Unique ports → Unique (without port ports)
unfolding is_used
without-Unique port [] u = tt
without-Unique port (x ∷ ports) u =
    ground (arith, without-Unique port ports u.1, is_used-without port x ports u.0)

pub without-gone : (port : ℤ) (ports : List ℤ) → is_used port (without port ports) ≡ false
unfolding is_used
without-gone port [] = refl
without-gone port (x ∷ ports) = ground (arith, without-gone port ports)

-- Taking out a port that was not there before undoes putting it at the end.
pub without_snoc :
    (port : ℤ) (ports : List ℤ)
    → is_used port ports ≡ false
    → without port (ports ++ port ∷ []) ≡ ports
unfolding is_used
without_snoc port [] h = ground (arith, int_beq_iff port port)
without_snoc port (x ∷ ports) h = ground (arith, without_snoc port ports)

pub snoc-Unique :
    (port : ℤ) (ports : List ℤ)
    → is_used port ports ≡ false
    → Unique ports
    → Unique (ports ++ port ∷ [])
unfolding is_used
snoc-Unique port [] h u = (refl, tt)
snoc-Unique port (x ∷ ports) h u = (
  is_used-append x ports (port ∷ []) u.0 (ground (arith, int_beq_iff x port, int_beq_iff port x)),
  snoc-Unique port ports (is_used_tail port x ports h) u.1,
)
