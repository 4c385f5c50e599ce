-- ===== src/Lib.antt =====
-- A replicated bank on Multi-Paxos (lab6), with the failure and leader detectors of lab3, and the
-- network and logger that lab3 runs the detectors on.
--
-- Every node runs the three Paxos roles, a server and the detectors as goroutines that talk over
-- channels. A client value goes from the server to the proposer, which gets promises of a majority
-- of acceptors for its round and then sends one accept per slot; the acceptors answer with learns,
-- the learners count them and hand decided values to their server, which executes them on the
-- accounts in the order of the slots. The failure detector suspects and restores nodes, the leader
-- detector elects the highest node that is not suspected, and the proposer follows it.
--
-- Bank: lab6/bank/bank.go; `process` is `Account.Process`.
-- Paxos: the types and `String` methods of lab6/multipaxos/defs.go.
-- Paxos.Acceptor: lab6/multipaxos/acceptor.go; `handle_prepare`, `handle_accept`, and `run` for the
--   loop of `Start` over the messages that arrive.
-- Paxos.Proposer: lab6/multipaxos/proposer.go; `handle_promise`, `create_accept_message`,
--   `send_accept`, `start_phase_one`, and `run` for the loop of `Start`.
-- Paxos.Learner: lab6/multipaxos/learner.go; `handle_learn` and `run`.
-- Detector: lab3/detector/defs.go; Detector.Failure: fd.go beside it, `timeout` and
--   `handle_heartbeat`; Detector.Leader: ld.go, `leader_election`, `suspect`, `restore`, `subscribe`.
-- Network: lab6/network/defs.go; Network.Server: lab6/network/server.go, `handle_decided_value`,
--   `handle_peer_in_msg`, `recv_peer_msg`, `recv_ext_cl_msg`, and `handle_this_node_out_msg` in its
--   child Outgoing.
-- Network.Client: lab6/network/client.go, `conn_to_servers`, `handle_outgoing_msg`.
-- ExtClient: lab6/external_client_application, `conn_to_server`, `handle_outgoing_msg`,
--   `handle_incoming_msg`, `handle_result`. Its maps of addresses are those of lab6/network/defs.go.
-- Cluster: acceptors, learners and a network that loses, repeats, delays and reorders messages, as a
--   step relation. What the cluster asks of proposers is the contract `IsSafe`: the value that the
--   promises of a majority leave to the round; and one value per slot and round.
--   Cluster.Proposing is about the accepts of proposer.go's Phase One under that contract. The rest
--   of it, one value per slot and round, proposer.go can break after a change of leader (see
--   Paxos.Proposer.Reuse), so that it is a condition of the step relation.
-- PeerNetwork: lab3/network/TCP.go; `init_network`. Its children: Addresses has the texts of addresses,
--   Ports `get_client_addr` and `remove_port`, Connecting `connect_to_node`, `accept_conn`,
--   `cleanup_conn`, `clean_and_attempt_reconnect` and `remove_disconnected`, Sending `send`, `broadcast`
--   and `listen`. Runs has every sequence of the methods, Peers two nodes of one configuration.
--   PeerNetwork.Heartbeats: the loop of lab3/main/main.go, `net_msg` and `route`, on the way between
--   Detector.Failure and this network.
-- Logging: lab3/logging/logger.go; `init_logger` and `log_line`, which is `Logger.Log`.
-- Benchmark: lab6/benchmark_aplication/benchmark.go; `handle_outgoing_msg`, on ExtClient's functions
--   for the code that the two clients share, and `run_benchmark` in its child Runs, which ends with
--   the process when the client is stopped.
-- Application: lab6/application/app.go, with Detector.Leader, which it follows; `run`.
-- Common: 64-bit integers, Go's maps and strings. Examples: the theorems at concrete runs.
--
-- Each goroutine is a function on its state, one call for one message; what it sends is its result.
-- An `int` is an integer with the wrap-around at 2 ^ 63 written out; where a theorem needs that a
-- number does not pass that bound, it says so. The number of nodes, the quorum and the counts of
-- messages are natural numbers. A map is an association list, and the order in which the run-time
-- visits one is an argument, a list of the same entries, each once. A panic and a send that waits
-- are `none`.
--
-- `accepts_from`, the loop from `min_slot` to `max_slot`, is on fuel: the number of slots between
-- them, and two more. `conn_loop` of the client is on one more than its four attempts, `find_port` on the number
-- of the node's client ports and one more, and `digits`,
-- which prints a number, on one more than the number. The other loops follow their lists.
--
-- Not modelled: TCP, gob, JSON and listening (lab6/network, lab3/network), where the model takes
-- the connections and the results of dials, reads and writes as arguments, and where closing a
-- connection leaves nothing in the state; lab3/network/peer-to-peer.go, an older copy of TCP.go under
-- other names; the start files, flags and signals, and the web page; the library
-- lab6/gorilla/websocket; the tickers and the `stop` channels; what two goroutines do to the state of
-- a server or a network at the same time. The types of lab4/singlepaxos, which the repository does
-- not have, are one type parameter of the messages of lab3/network.
pub mod Common
pub mod Bank
pub mod Paxos
pub mod Detector
pub mod Network
pub mod Cluster
pub mod PeerNetwork
pub mod Logging
pub mod ExtClient
pub mod Benchmark
pub mod Application
mod Examples
