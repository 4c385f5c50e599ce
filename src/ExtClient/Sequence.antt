-- ===== src/ExtClient/Sequence.antt =====
-- The sequence numbers of the client of lab6/external_client_application/extClient.go, over the
-- results that it gets (`Start`).
use multi_paxos_work_in_prog.Common.{
  ℕ, suc, ◌+◌, ◌<◌, ◌^◌, ℤ, pos, ◌+ℤ◌, int_eq, int_beq_iff, nat_eq, nat_beq_iff, list_eq, ◌==◌,
  Bool, true, false, if◌then◌else◌, List, [], ◌∷◌, ◌≡◌, refl, ◌∙◌, ap, subst, arith, All, length,
  int_laws,
}
use multi_paxos_work_in_prog.Common.Int.{add_int, add_int_lem, InRange}
use multi_paxos_work_in_prog.Common.Text.{Text}
use multi_paxos_work_in_prog.Network.{CommProto}
use multi_paxos_work_in_prog.ExtClient.{
  DistributedExtCl, Shown, success, failure, sequence_problem, handle_result,
}

-- The loop of `Start` over the results that come in, with what it prints for each.
unfoldable pub handle_results : DistributedExtCl → List CommProto → DistributedExtCl × List Shown
unfolding handle_result
handle_results c [] = (c, [])
handle_results c (msg ∷ msgs) =
    let (d, shown) = handle_result c msg in
    let (e, rest) = handle_results d msgs in (e, shown ∷ rest)

abbrev pub is_result : Shown → Bool
is_result (success account balance) = true
is_result (failure error) = true
is_result (sequence_problem own obtained) = false

-- The results are numbered one after the other.
abbrev pub NumberedFrom : ℕ → List CommProto → Type 0
NumberedFrom j [] = Unit {0}
NumberedFrom j (msg ∷ msgs) = (msg.txn_response.client_seq ≡ pos j) × NumberedFrom (suc j) msgs

next_number : (k : ℕ) → k + 1 < 2 ^ 63 → add_int (pos k) (pos 1) ≡ pos (suc k)
next_number k small = add_int_lem (pos k) (pos 1) in_range ∙ sum
  where
    in_range : InRange (pos k +ℤ pos 1)
    in_range = grind int_laws

    sum : pos k +ℤ pos 1 ≡ pos (suc k)
    sum = omega int_laws

handle_result-shown :
    (c : DistributedExtCl) (msg : CommProto) (k j : ℕ)
    → c.seq_num ≡ pos k
    → msg.txn_response.client_seq ≡ pos j
    → is_result (handle_result c msg).1 ≡ (k == j)
unfolding handle_result
handle_result-shown c msg k j own number =
    verdict (c.seq_num == msg.txn_response.client_seq) (msg.txn_response.txn_res.error_string == [])
      _ _ _ _ _
    ∙ same_number c.seq_num msg.txn_response.client_seq own number
  where
    verdict :
        (a b : Bool) (account balance own obtained : ℤ) (error : Text)
        → is_result (
            if a
            then (if b then success account balance else failure error)
            else sequence_problem own obtained)
          ≡ a
    verdict true true x y o n t = refl
    verdict true false x y o n t = refl
    verdict false b x y o n t = refl

    same_number : (a b : ℤ) → a ≡ pos k → b ≡ pos j → (a == b) ≡ (k == j)
    same_number a b e f = ground (arith, int_beq_iff a b, nat_beq_iff k j)

handle_result-seq_num :
    (c : DistributedExtCl) (msg : CommProto) (k : ℕ)
    → c.seq_num ≡ pos k
    → k + 1 < 2 ^ 63
    → (handle_result c msg).0.seq_num ≡ pos (suc k)
unfolding handle_result
handle_result-seq_num c msg k own small = ap (λ s. add_int s (pos 1)) own ∙ next_number k small

-- A client that gets results numbered one after the other shows every one of them if its own number
-- is that of the first one. If it is any other number, as after a result that came twice, it shows
-- none of them, however many come, while its number does not pass the largest `int`.
pub results_in_step :
    (c : DistributedExtCl) (msgs : List CommProto) (k j : ℕ)
    → c.seq_num ≡ pos k
    → NumberedFrom j msgs
    → k + length msgs < 2 ^ 63
    → All (λ s. is_result s ≡ (k == j)) (handle_results c msgs).1
unfolding handle_results
results_in_step c [] k j own numbered small = tt
results_in_step c (msg ∷ msgs) k j own numbered small =
    let d = (handle_result c msg).0 in
    let rest =
      results_in_step d msgs (suc k) (suc j)
        (handle_result-seq_num c msg k own (omega (arith, small))) numbered.1
        (omega (arith, small)) in
    (
      handle_result-shown c msg k j own numbered.0,
      subst (λ b. All (λ s. is_result s ≡ b) (handle_results d msgs).1) (shifted k j) rest,
    )
  where
    shifted : (k j : ℕ) → (suc k == suc j) ≡ (k == j)
    shifted k j = ground (arith, nat_beq_iff k j, nat_beq_iff (suc k) (suc j))
