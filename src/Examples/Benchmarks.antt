-- ===== src/Examples/Benchmarks.antt =====
-- The benchmark of lab6/benchmark_aplication with the smallest random numbers.
use multi_paxos_work_in_prog.Common.{ℤ, pos, int_eq, List, [], ◌∷◌, some, arith}
use multi_paxos_work_in_prog.Common.Text.{codes}
use multi_paxos_work_in_prog.Bank.{Account}
use multi_paxos_work_in_prog.ExtClient.{Surroundings, client_value}
use multi_paxos_work_in_prog.Benchmark.{init_bench_client, Draws, handle_outgoing_msg}
use multi_paxos_work_in_prog.Benchmark.Requests.{IsIntn, Fine, benchmark_accepted}
use multi_paxos_work_in_prog.Benchmark.Runs.{Meets}
use multi_paxos_work_in_prog.Network.Server.{written, eof_error}

abbrev lowest : ℤ → ℤ
lowest n = pos 0

lowest-IsIntn : IsIntn lowest
lowest-IsIntn n h = (omega arith, h)

abbrev draws : Draws
draws = record { accnt = lowest; kind = lowest; amount = lowest }

-- every node can be dialled
abbrev network : Surroundings
network = record { dials = λ n host. some 4; rand = λ n. pos 1 }

abbrev account : Account
account = record { number = pos 1; balance = pos 50 }

benchmark_accepted_example :
    Fine account (
      client_value
        (codes "10.0.0.9")
        (handle_outgoing_msg network draws init_bench_client).0.client)
unfolding init_bench_client
benchmark_accepted_example =
    benchmark_accepted (codes "10.0.0.9") network draws init_bench_client account
      (lowest-IsIntn, lowest-IsIntn, lowest-IsIntn) (omega arith)

-- The second write meets the end of the stream.
abbrev inputs : List Meets
inputs =
    record { net = network; draws = draws; result = written; later = network }
    ∷ record { net = network; draws = draws; result = eof_error; later = network }
    ∷ []
