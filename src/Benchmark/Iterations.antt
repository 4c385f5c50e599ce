-- ===== src/Benchmark/Iterations.antt =====
-- lab6/benchmark_aplication/benchmark.go: how many requests the benchmark sends.
use multi_paxos_work_in_prog.Common.{
  ℕ, suc, ◌+◌, ◌<◌, ◌≤◌, ltb, leb, true, false, if◌then◌else◌, List, length, count, ◌≡◌, ◌⊎◌,
}
use multi_paxos_work_in_prog.Common.Text.{Text}
use multi_paxos_work_in_prog.ExtClient.{Action}
use multi_paxos_work_in_prog.ExtClient.Actions.{stops}
use multi_paxos_work_in_prog.Benchmark.{BenchClient}
use multi_paxos_work_in_prog.Benchmark.Runs.{is_request, Meets}

-- What one value comes to: the client runs on and has sent a request for it if it is one of the first
-- 500; or it is one of them, and the client is stopped, before the request or after it.
abbrev Served : BenchClient → BenchClient × List Action → Type 0
Served b (b', out) =
    ((stops out ≡ false)
      × (count is_request out + b.iteration_count ≡ b'.iteration_count)
      × (b'.iteration_count
          ≡ (if ltb b.iteration_count 500 then suc b.iteration_count else b.iteration_count)))
    ⊎ ((stops out ≡ true) × (count is_request out ≤ 1) × b.iteration_count < 500)

-- the smaller of the two
abbrev pub at_most : ℕ → ℕ → ℕ
at_most bound n = if leb n bound then n else bound

-- The client runs on and has sent as many requests as it can for the values; or it is stopped, and has
-- not sent more.
abbrev pub Sends : BenchClient → List Meets → BenchClient × List Action → Type 0
Sends b inputs (b', out) =
    ((stops out ≡ false)
      × (count is_request out + b.iteration_count
          ≡ at_most 500 (b.iteration_count + length inputs)))
    ⊎ ((stops out ≡ true)
        × (count is_request out + b.iteration_count
            ≤ at_most 500 (b.iteration_count + length inputs)))
