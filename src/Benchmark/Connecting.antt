-- ===== src/Benchmark/Connecting.antt =====
-- lab6/benchmark_aplication/benchmark.go: what connecting does not do, and that it connects unless it
-- stops the client.
use multi_paxos_work_in_prog.Common.{
  ℕ, zero, suc, ◌+◌, leb, ◌&&◌, Bool, true, false, if◌then◌else◌, List, [], ◌∷◌, ◌++◌, count, some,
  ◌≡◌, refl, ap, arith, inl, inr, Bool-cases, Option-cases,
}
use multi_paxos_work_in_prog.Common.Text.{Text}
use multi_paxos_work_in_prog.Network.{Conn}
use multi_paxos_work_in_prog.ExtClient.{
  DistributedExtCl, Action, dial, go_handle_incoming, stop_client, Surroundings, choose_host,
  attempt, conn_loop, conn_to_server, is_nil, ldr_conn_num_retry,
}
use multi_paxos_work_in_prog.ExtClient.Actions.{stops}
use multi_paxos_work_in_prog.ExtClient.Connecting.{conn_to_server_ends}
use multi_paxos_work_in_prog.Benchmark.{connect_first}

pub count-append :
    (p : Action → Bool) (l m : List Action) → count p (l ++ m) ≡ count p l + count p m
count-append p [] m = omega arith
count-append p (x ∷ l) m = omega (arith, count-append p l m)

-- An action other than those of `clConnToServer`.
pub record Elsewhere (p : Action → Bool) : Type 0 where
  pub no_dial : (host : Text) → p (dial host) ≡ false
  pub no_start : p go_handle_incoming ≡ false
  pub no_stop : p stop_client ≡ false

module _ (p : Action → Bool) (other : Elsewhere p) (net : Surroundings) where
  attempt-count : (spawn : Bool) (c : DistributedExtCl) → count p (attempt net spawn c).1 ≡ 0
  unfolding attempt
  attempt-count spawn c =
      let d = choose_host net c in
      let dialling = other.no_dial d.ldr_node_host in
      elim (Option-cases (net.dials d.ldr_conn_retry_cnt d.ldr_node_host)) [
        | inl e ↦ rw (e, attempt) (rw dialling refl)
        | inr (conn, e) ↦ rw (e, attempt) (rw dialling (omega (arith, spawned spawn)))
      ]
    where
      spawned : (b : Bool) → count p (if b then go_handle_incoming ∷ [] else []) ≡ 0
      spawned true = rw other.no_start refl
      spawned false = refl

  conn_loop-count :
      (f : ℕ) (spawn : Bool) (c : DistributedExtCl) → count p (conn_loop f net spawn c).1 ≡ 0
  unfolding conn_loop
  conn_loop-count zero spawn c = refl
  conn_loop-count (suc f) spawn c =
      let next = attempt net spawn c in
      let both = count-append p next.1 (conn_loop f net spawn next.0).1 in
      let none_there = attempt-count spawn c in
      let none_later = conn_loop-count f spawn next.0 in
      elim (Bool-cases (is_nil c.ldr_node_conn && leb c.ldr_conn_retry_cnt ldr_conn_num_retry)) [
        | inl t ↦ rw t (omega (arith, both, none_there, none_later))
        | inr t ↦ rw t refl
      ]

  pub conn_to_server-count :
      (spawn : Bool) (c : DistributedExtCl) → count p (conn_to_server net spawn c).1 ≡ 0
  unfolding conn_to_server
  conn_to_server-count spawn c =
      let d = record c { ldr_conn_retry_cnt = 0 } in
      with_stop (conn_loop (ldr_conn_num_retry + 2) net spawn d)
        (conn_loop-count (ldr_conn_num_retry + 2) spawn d)
    where
      stopped : (b : Bool) → count p (if b then stop_client ∷ [] else []) ≡ 0
      stopped true = rw other.no_stop refl
      stopped false = refl

      with_stop :
          (r : DistributedExtCl × List Action)
          → count p r.1 ≡ 0
          → count p (
              r.1
              ++ (if leb ldr_conn_num_retry r.0.ldr_conn_retry_cnt then stop_client ∷ [] else []))
            ≡ 0
      with_stop (d, out) e =
          let b = leb ldr_conn_num_retry d.ldr_conn_retry_cnt in
          omega (arith, count-append p out (if b then stop_client ∷ [] else []), e, stopped b)

  pub connect_first-count : (c : DistributedExtCl) → count p (connect_first net c).1 ≡ 0
  unfolding connect_first
  connect_first-count c =
      either (is_nil c.ldr_node_conn) (conn_to_server net true c) (conn_to_server-count true c)
    where
      either :
          (b : Bool) (r : DistributedExtCl × List Action)
          → count p r.1 ≡ 0
          → count p (if b then r else (c, [])).1 ≡ 0
      either true r e = e
      either false r e = refl

-- A client that is not stopped has a connection.
pub connect_first-connected :
    (net : Surroundings) (c : DistributedExtCl)
    → stops (connect_first net c).1 ≡ false
    → (conn : Conn) × ((connect_first net c).0.ldr_node_conn ≡ some conn)
unfolding connect_first
connect_first-connected net c runs_on = elim (Option-cases c.ldr_node_conn) [
  | inl e ↦
      let missing : is_nil c.ldr_node_conn ≡ true = ap is_nil e in
      elim (conn_to_server_ends net true c e) [
        | inl (conn, earlier, has, hosts, reached, number, few, last) ↦ (conn, rw missing has)
        | inr (still, four, stopped) ↦ absurd (ground (arith, missing, runs_on, stopped))
      ]
  | inr (conn, e) ↦ let there : is_nil c.ldr_node_conn ≡ false = ap is_nil e in (conn, rw there e)
]
