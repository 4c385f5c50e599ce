-- ===== src/Benchmark/Runs.antt =====
-- lab6/benchmark_aplication/benchmark.go: the loop of `clHandleOutgoingMsg`. Each value from
-- `getUsrInput` is handled together with the goroutine that it starts to send the request, before the
-- next one arrives; results and redirections in between are left out.
use multi_paxos_work_in_prog.Common.{
  ltb, Bool, true, false, if◌then◌else◌, List, [], ◌∷◌, ◌++◌, count,
}
use multi_paxos_work_in_prog.Common.Text.{Text}
use multi_paxos_work_in_prog.Network.Server.{WriteResult}
use multi_paxos_work_in_prog.ExtClient.{
  DistributedExtCl, Action, encode, go_conn_to_server, go_send, Surroundings, conn_to_server,
  send_data_to_server,
}
use multi_paxos_work_in_prog.ExtClient.Actions.{stops}
use multi_paxos_work_in_prog.Benchmark.{BenchClient, Draws, handle_outgoing_msg}

-- the start of the goroutine that sends
abbrev pub is_send : Action → Bool
is_send go_send = true
is_send _ = false

-- a request that is encoded to a connection
abbrev pub is_request : Action → Bool
is_request (encode conn msg) = true
is_request _ = false

-- the start of the goroutine that connects again
abbrev pub is_reconnect : Action → Bool
is_reconnect (go_conn_to_server spawn) = true
is_reconnect _ = false

-- What one value from `getUsrInput` meets: the network while the client connects, the random numbers,
-- what becomes of the write, and the network while it connects again.
pub record Meets : Type 0 where
  pub net : Surroundings
  pub draws : Draws
  pub result : WriteResult
  pub later : Surroundings

-- The goroutine `clSendDataToServer`, with the one that it starts to connect again.
unfoldable pub send_request : Text → Meets → DistributedExtCl → DistributedExtCl × List Action
unfolding send_data_to_server
send_request addr i c =
    let (d, sent) = send_data_to_server i.result addr c in
    let (e, more) = conn_to_server i.later false d in
    if ltb 0 (count is_reconnect sent) then (e, sent ++ more) else (d, sent)

-- What follows the handling of a value. A client that is stopped waits at the `stop` channel, and does
-- not get to start a send.
unfoldable pub finish : Text → Meets → BenchClient × List Action → BenchClient × List Action
unfolding send_request
finish addr i (b, out) =
    let (c, sent) = send_request addr i b.client in
    if stops out
    then (b, out)
    else if ltb 0 (count is_send out)
    then (record b { client = c }, out ++ sent)
    else (b, out)

-- One value.
unfoldable pub serve : Text → Meets → BenchClient → BenchClient × List Action
unfolding handle_outgoing_msg finish
serve addr i b = finish addr i (handle_outgoing_msg i.net i.draws b)

-- The values that arrive from `getUsrInput`, one after the other, until `Start` receives from `stop`
-- and ends the process.
unfoldable pub run_benchmark : Text → BenchClient → List Meets → BenchClient × List Action
unfolding serve
run_benchmark addr b [] = (b, [])
run_benchmark addr b (i ∷ inputs) =
    let (b', out) = serve addr i b in
    let (b'', outs) = run_benchmark addr b' inputs in
    if stops out then (b', out) else (b'', out ++ outs)
