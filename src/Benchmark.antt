-- ===== src/Benchmark.antt =====
-- lab6/benchmark_aplication/benchmark.go: the client of lab6/external_client_application with random
-- transactions for the user's input. Connecting, sending and receiving are the same code as in
-- extClient.go there, and are ExtClient's functions here.
pub mod Requests
pub mod Connecting
pub mod Runs
pub mod Iterations
use multi_paxos_work_in_prog.Common.{
  ℕ, suc, ℤ, pos, int_eq, ltb, ◌==◌, not, Bool, true, false, if◌then◌else◌, List, [], ◌∷◌, ◌++◌,
  Option,
}
use multi_paxos_work_in_prog.Common.Int.{add_int, sub_int}
use multi_paxos_work_in_prog.ExtClient.{
  DistributedExtCl, init_ext_client, Action, go_send, Surroundings, is_nil, conn_to_server,
}

-- The fields of `DistributedExtCl` that the client of ExtClient has, and the one that it lacks.
pub record BenchClient : Type 0 where
  pub client : DistributedExtCl
  pub iteration_count : ℕ

-- the client as `InitBenchClient` and `Start` leave it
unfoldable pub init_bench_client : BenchClient
unfolding init_ext_client
init_bench_client = record { client = init_ext_client; iteration_count = 0 }

-- `genRandNum`, with `rand.Intn`
unfoldable pub gen_rand_num : (ℤ → ℤ) → ℤ → ℤ → ℤ
unfolding add_int sub_int
gen_rand_num intn min max = add_int (intn (sub_int max min)) min

-- What `rand.Intn` gives in the three calls of an iteration.
pub record Draws : Type 0 where
  pub accnt : ℤ → ℤ
  pub kind : ℤ → ℤ
  pub amount : ℤ → ℤ

unfoldable pub draw_amount : Draws → ℤ → ℤ
unfolding gen_rand_num
draw_amount draws trans_type =
    if not (trans_type == pos 0) then gen_rand_num draws.amount (pos 100) (pos 100000) else pos 0

unfoldable pub draw_transaction : Draws → DistributedExtCl → DistributedExtCl
unfolding gen_rand_num draw_amount
draw_transaction draws c =
    let trans_type = gen_rand_num draws.kind (pos 0) (pos 2) in
    record c {
      usr_accnt_num = gen_rand_num draws.accnt (pos 1) (pos 30);
      usr_trans_type = trans_type;
      usr_amnt = draw_amount draws trans_type;
    }

abbrev pub reset : DistributedExtCl → DistributedExtCl
reset c = record c { usr_accnt_num = pos 0; usr_trans_type = pos 0; usr_amnt = pos 0 }

-- the test for a connection to the leader
unfoldable pub connect_first : Surroundings → DistributedExtCl → DistributedExtCl × List Action
connect_first net c = if is_nil c.ldr_node_conn then conn_to_server net true c else (c, [])

-- The body under the test of the iteration count.
unfoldable pub iterate : Surroundings → Draws → BenchClient → BenchClient × List Action
unfolding draw_transaction connect_first
iterate net draws b =
    let (c, out) =
      connect_first net (record (draw_transaction draws (reset b.client)) { read_input = true }) in
    (
      record { client = record c { read_input = false }; iteration_count = suc b.iteration_count },
      out ++ go_send ∷ [],
    )

-- `clHandleOutgoingMsg` for one value from `getUsrInput`.
unfoldable pub handle_outgoing_msg : Surroundings → Draws → BenchClient → BenchClient × List Action
unfolding iterate
handle_outgoing_msg net draws b =
    if ltb b.iteration_count 500
    then iterate net draws b
    else (record b { client = reset b.client }, [])
