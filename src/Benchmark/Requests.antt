-- ===== src/Benchmark/Requests.antt =====
-- lab6/benchmark_aplication/benchmark.go: the requests of the benchmark, as lab6/bank processes them.
use multi_paxos_work_in_prog.Common.{
  ℕ, zero, suc, ◌<◌, ℤ, pos, negsuc, ◌≤ℤ◌, ◌<ℤ◌, int_eq, ltb, ◌-ℤ◌, ◌+◌, ltb_ℤ, leb, ◌==◌, ◌&&◌,
  Bool, true, false, if◌then◌else◌, List, [], ◌≡◌, refl, nat_eq, list_eq, ◌∙◌, sym, ap, subst, inl,
  inr, ◌⊎◌, arith, int_laws, Bool-cases, Option-cases,
}
use multi_paxos_work_in_prog.Common.Int.{int_beq, add_int_lem, sub_int_lem}
use multi_paxos_work_in_prog.Common.Text.{Text}
use multi_paxos_work_in_prog.Paxos.{Value}
use multi_paxos_work_in_prog.Bank.{Account, Transaction, process, process_switch}
use multi_paxos_work_in_prog.ExtClient.{
  Action, DistributedExtCl, Surroundings, choose_host, attempt, conn_loop, conn_to_server,
  client_value, is_nil, ldr_conn_num_retry,
}
use multi_paxos_work_in_prog.Benchmark.{
  connect_first, reset, BenchClient, Draws, gen_rand_num, draw_amount, draw_transaction, iterate,
  handle_outgoing_msg,
}

-- `rand.Intn`: from 0 up to, but not, its argument, which is above 0.
abbrev pub IsIntn : (ℤ → ℤ) → Type 0
IsIntn intn = (n : ℤ) → pos 0 <ℤ n → (pos 0 ≤ℤ intn n) × (intn n <ℤ n)

-- A random number is in its range.
gen_rand_num_in :
    (intn : ℤ → ℤ) (min max : ℕ)
    → IsIntn intn
    → min < max
    → max < 200000
    → (pos min ≤ℤ gen_rand_num intn (pos min) (pos max))
      × (gen_rand_num intn (pos min) (pos max) <ℤ pos max)
unfolding gen_rand_num
gen_rand_num_in intn min max h lt small =
    let width = pos max -ℤ pos min in
    let drawn = h width (grind int_laws) in
    rw
      (
        sub_int_lem (pos max) (pos min) (grind int_laws),
        add_int_lem (intn width) (pos min) (grind int_laws),
      )
      (grind int_laws, grind int_laws)

-- Connecting keeps what the request is made of.
module _ (addr : Text) (net : Surroundings) (spawn : Bool) where
  choose_host-client_value :
      (c : DistributedExtCl) → client_value addr (choose_host net c) ≡ client_value addr c
  unfolding client_value choose_host
  choose_host-client_value c = elim (Bool-cases (c.ldr_node_host == [])) [
    | inl t ↦ rw (t, choose_host) refl
    | inr t ↦ rw (t, choose_host) refl
  ]

  attempt-client_value :
      (c : DistributedExtCl) → client_value addr (attempt net spawn c).0 ≡ client_value addr c
  unfolding attempt client_value
  attempt-client_value c =
      let d = choose_host net c in
      elim (Option-cases (net.dials d.ldr_conn_retry_cnt d.ldr_node_host)) [
        | inl e ↦ rw (e, attempt) (choose_host-client_value c)
        | inr (conn, e) ↦ rw (e, attempt) (choose_host-client_value c)
      ]

  conn_loop-client_value :
      (f : ℕ) (c : DistributedExtCl)
      → client_value addr (conn_loop f net spawn c).0 ≡ client_value addr c
  unfolding conn_loop
  conn_loop-client_value zero c = refl
  conn_loop-client_value (suc f) c =
      let later = conn_loop-client_value f (attempt net spawn c).0 ∙ attempt-client_value c in
      elim (Bool-cases (is_nil c.ldr_node_conn && leb c.ldr_conn_retry_cnt ldr_conn_num_retry)) [
        | inl t ↦ rw t later
        | inr t ↦ rw t refl
      ]

  conn_to_server-client_value :
      (c : DistributedExtCl)
      → client_value addr (conn_to_server net spawn c).0 ≡ client_value addr c
  unfolding conn_to_server client_value
  conn_to_server-client_value c =
      conn_loop-client_value (ldr_conn_num_retry + 2) (record c { ldr_conn_retry_cnt = 0 })

-- The bank accepts a request for the balance, and a deposit that is not negative.
accepted :
    (account : Account) (txn : Transaction)
    → (txn.op ≡ pos 0) ⊎ ((txn.op ≡ pos 1) × (pos 0 ≤ℤ txn.amount))
    → (process account txn).1.error_string ≡ []
unfolding process process_switch int_beq
accepted account txn (inl e) = rw e refl
accepted account txn (inr (e, h)) =
    let not_negative : ltb_ℤ txn.amount (pos 0) ≡ false = ground arith in rw (e, not_negative) refl

-- one of two values
zero_or_one : (x : ℤ) → pos 0 ≤ℤ x → x <ℤ pos 2 → (x ≡ pos 0) ⊎ (x ≡ pos 1)
zero_or_one (pos zero) h k = inl refl
zero_or_one (pos (suc zero)) h k = inr refl
zero_or_one (pos (suc (suc n))) h k = absurd (omega arith)
zero_or_one (negsuc n) h k = absurd (omega arith)

-- `rand.Intn` in all three calls
abbrev pub AreIntn : Draws → Type 0
AreIntn d = IsIntn d.accnt × IsIntn d.kind × IsIntn d.amount

drawn_accepted :
    (draws : Draws) (c : DistributedExtCl)
    → AreIntn draws
    → let d = draw_transaction draws c in
      (d.usr_trans_type ≡ pos 0) ⊎ ((d.usr_trans_type ≡ pos 1) × (pos 0 ≤ℤ d.usr_amnt))
unfolding draw_transaction draw_amount int_beq
drawn_accepted draws c (a, k, m) =
    let (low, high) = gen_rand_num_in draws.kind 0 2 k (omega arith) (omega arith) in
    let (amount, small) = gen_rand_num_in draws.amount 100 100000 m (omega arith) (omega arith) in
    elim (zero_or_one (gen_rand_num draws.kind (pos 0) (pos 2)) low high) [
      | inl e ↦ inl e
      | inr e ↦ inr (e, rw e (omega arith))
    ]

connect_first-client_value :
    (addr : Text) (net : Surroundings) (c : DistributedExtCl)
    → client_value addr (connect_first net c).0 ≡ client_value addr c
unfolding connect_first
connect_first-client_value addr net c =
    either (is_nil c.ldr_node_conn) (conn_to_server net true c)
      (conn_to_server-client_value addr net true c)
  where
    either :
        (b : Bool) (r : DistributedExtCl × List Action)
        → client_value addr r.0 ≡ client_value addr c
        → client_value addr (if b then r else (c, [])).0 ≡ client_value addr c
    either true r e = e
    either false r e = refl

abbrev asked : Draws → BenchClient → DistributedExtCl
asked draws b = record (draw_transaction draws (reset b.client)) { read_input = true }

-- The request of an iteration is the drawn one, connected or not.
iterate-client_value :
    (addr : Text) (net : Surroundings) (draws : Draws) (b : BenchClient)
    → client_value addr (iterate net draws b).0.client ≡ client_value addr (asked draws b)
unfolding iterate client_value
iterate-client_value addr net draws b = connect_first-client_value addr net (asked draws b)

handle_outgoing_msg-iterate :
    (net : Surroundings) (draws : Draws) (b : BenchClient)
    → b.iteration_count < 500
    → handle_outgoing_msg net draws b ≡ iterate net draws b
unfolding handle_outgoing_msg
handle_outgoing_msg-iterate net draws b more =
    let t : ltb b.iteration_count 500 ≡ true = ground arith in rw (t, handle_outgoing_msg) refl

-- What a request says is in bounds and gets no error.
abbrev pub Fine : Account → Value → Type 0
Fine account request =
    (pos 1 ≤ℤ request.account_num)
    × (request.account_num <ℤ pos 30)
    × ((process account request.txn).1.error_string ≡ [])

asked-Fine :
    (addr : Text) (draws : Draws) (b : BenchClient) (account : Account)
    → AreIntn draws
    → Fine account (client_value addr (asked draws b))
unfolding client_value draw_transaction
asked-Fine addr draws b account are =
    let (low, high) = gen_rand_num_in draws.accnt 1 30 are.0 (omega arith) (omega arith) in
    (
      low,
      high,
      accepted account (client_value addr (asked draws b)).txn
          (drawn_accepted draws (reset b.client) are),
    )

-- With numbers that are in the range of `rand.Intn`, an iteration of the benchmark sends a request
-- for one of the accounts 1 to 29 that the bank carries out without an error, whatever account it
-- finds and whether or not the client had to connect first: the benchmark never withdraws.
pub benchmark_accepted :
    (addr : Text) (net : Surroundings) (draws : Draws) (b : BenchClient) (account : Account)
    → AreIntn draws
    → b.iteration_count < 500
    → Fine account (client_value addr (handle_outgoing_msg net draws b).0.client)
benchmark_accepted addr net draws b account are more =
    let same =
      ap (λ r. client_value addr r.0.client) (handle_outgoing_msg-iterate net draws b more)
      ∙ iterate-client_value addr net draws b in
    subst (λ v. Fine account v) (sym same) (asked-Fine addr draws b account are)
