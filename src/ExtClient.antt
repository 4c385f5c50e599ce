-- ===== src/ExtClient.antt =====
-- lab6/external_client_application: the client program of extClient.go. Dialling, random numbers,
-- the user's input and the results of reads and writes are arguments; what the handlers do to the
-- connections, and the goroutines that they start, are their outputs.
pub mod Actions
pub mod Connecting
pub mod Redirects
pub mod Sequence
use multi_paxos_work_in_prog.Common.{
  ℕ, zero, suc, ◌+◌, ℤ, pos, int_eq, nat_eq, list_eq, ltb_ℤ, leb, ◌==◌, not, ◌&&◌, ◌||◌, Bool, true,
  false, if◌then◌else◌, List, [], ◌∷◌, ◌++◌, Option, none, some, ◌>>=◌,
}
use multi_paxos_work_in_prog.Common.Int.{add_int}
use multi_paxos_work_in_prog.Common.GoMap.{lookup}
use multi_paxos_work_in_prog.Common.Text.{Text, codes}
use multi_paxos_work_in_prog.Paxos.{Value}
use multi_paxos_work_in_prog.Network.{
  Conn, node_of, addrs_by_node_id, or_empty, CommProto, zero_comm_proto, ReadResult, read_eof,
  read_error, read_msg,
}
use multi_paxos_work_in_prog.Network.Server.{WriteResult, written, eof_error, other_error}

-- The fields but the channels and `serverIPAddrConns`, which nothing reads.
pub record DistributedExtCl : Type 0 where
  pub rand_node_id : ℤ
  pub ldr_node_host : Text
  pub ldr_node_conn : Option Conn
  pub ldr_conn_retry_cnt : ℕ
  pub usr_accnt_num : ℤ
  pub usr_trans_type : ℤ
  pub usr_amnt : ℤ
  pub seq_num : ℤ
  pub read_input : Bool

-- `go_...` starts a goroutine; `stop_client` is the send on `stop`, and `msg_cl_in` on `msgClIn`.
pub data Action : Type 0 where
  dial : Text → Action
  encode : Conn → CommProto → Action
  close_conn : Conn → Action
  msg_cl_in : CommProto → Action
  go_handle_incoming : Action
  go_conn_to_server : Bool → Action
  go_send : Action
  stop_client : Action

unfoldable pub init_ext_client : DistributedExtCl
init_ext_client = record {
  rand_node_id = pos 0;
  ldr_node_host = [];
  ldr_node_conn = none;
  ldr_conn_retry_cnt = 0;
  usr_accnt_num = pos 0;
  usr_trans_type = pos 0;
  usr_amnt = pos 0;
  seq_num = pos 0;
  read_input = false;
}

-- `LDR_CONN_NUM_RETRY`
abbrev pub ldr_conn_num_retry : ℕ
ldr_conn_num_retry = 3

-- What the network and the random numbers do, by the number of the attempt. A dial that fails is
-- `none`.
pub record Surroundings : Type 0 where
  pub dials : ℕ → Text → Option Conn
  pub rand : ℕ → ℤ

-- The host of an attempt: a random node, or the leader that a redirection names.
unfoldable pub choose_host : Surroundings → DistributedExtCl → DistributedExtCl
choose_host net c =
    if c.ldr_node_host == []
    then (let id = net.rand c.ldr_conn_retry_cnt in
        record c { rand_node_id = id; ldr_node_host = or_empty (lookup id addrs_by_node_id) })
    else record c { rand_node_id = node_of c.ldr_node_host }

-- The body of the loop of `clConnToServer`.
unfoldable pub attempt : Surroundings → Bool → DistributedExtCl → DistributedExtCl × List Action
unfolding choose_host
attempt net spawn c =
    let d = choose_host net c in
    elim (net.dials d.ldr_conn_retry_cnt d.ldr_node_host) [
      | none ↦ (
        record d { ldr_node_host = []; ldr_conn_retry_cnt = d.ldr_conn_retry_cnt + 1 },
        dial d.ldr_node_host ∷ [],
      )
      | some conn ↦ (
        record d { ldr_node_conn = some conn },
        dial d.ldr_node_host ∷ (if spawn then go_handle_incoming ∷ [] else []),
      )
    ]

abbrev pub is_nil : Option Conn → Bool
is_nil none = true
is_nil (some conn) = false

-- The loop of `clConnToServer`, with fuel.
unfoldable pub conn_loop :
    ℕ → Surroundings → Bool → DistributedExtCl → DistributedExtCl × List Action
unfolding attempt
conn_loop zero net spawn c = (c, [])
conn_loop (suc f) net spawn c =
    let (d, out) = attempt net spawn c in
    let (e, outs) = conn_loop f net spawn d in
    if is_nil c.ldr_node_conn && leb c.ldr_conn_retry_cnt ldr_conn_num_retry
    then (e, out ++ outs)
    else (c, [])

unfoldable pub conn_to_server :
    Surroundings → Bool → DistributedExtCl → DistributedExtCl × List Action
unfolding conn_loop
conn_to_server net spawn c =
    let (d, out) =
      conn_loop (ldr_conn_num_retry + 2) net spawn (record c { ldr_conn_retry_cnt = 0 }) in
    (d, out ++ (if leb ldr_conn_num_retry d.ldr_conn_retry_cnt then stop_client ∷ [] else []))

-- The client value; `addr` is this client's own address.
unfoldable pub client_value : Text → DistributedExtCl → Value
client_value addr c = record {
  client_id = addr;
  client_seq = c.seq_num;
  noop = false;
  account_num = c.usr_accnt_num;
  txn = record { op = c.usr_trans_type; amount = c.usr_amnt };
}

unfoldable pub client_request : Text → DistributedExtCl → CommProto
unfolding client_value
client_request addr c = record zero_comm_proto {
  msg_type = codes "EXTCLVALUE";
  val = client_value addr c;
}

unfoldable pub send_data_to_server :
    WriteResult → Text → DistributedExtCl → DistributedExtCl × List Action
unfolding client_request
send_data_to_server result addr c = elim c.ldr_node_conn [
  | none ↦ (c, [])
  | some conn ↦
      let request = encode conn (client_request addr c) in
      elim result [
        | written ↦ (c, request ∷ [])
        | eof_error ↦ (
          record c { ldr_node_conn = none; ldr_node_host = [] },
          request ∷ close_conn conn ∷ go_conn_to_server false ∷ [],
        )
        | other_error ↦ (c, request ∷ [])
      ]
]

unfoldable pub handle_redirect : Surroundings → DistributedExtCl → DistributedExtCl × List Action
unfolding conn_to_server
handle_redirect net c = let (d, out) = conn_to_server net true c in (d, out ++ go_send ∷ [])

-- One round of `clHandleIncomingMsg`; the last component is whether the loop goes on. Without a
-- connection nothing is read.
unfoldable pub handle_incoming_msg :
    Surroundings → ReadResult → DistributedExtCl → DistributedExtCl × List Action × Bool
unfolding handle_redirect
handle_incoming_msg net read c = elim c.ldr_node_conn [
  | none ↦ (c, [], true)
  | some conn ↦ elim read [
    | read_eof ↦ (
      record c { ldr_node_conn = none; ldr_node_host = [] },
      close_conn conn ∷ go_conn_to_server true ∷ [],
      false,
    )
    | read_error ↦ (c, [], true)
    | read_msg msg ↦
        let (d, out) =
          handle_redirect net (record c { ldr_node_conn = none; ldr_node_host = msg.ip_addr }) in
        if msg.msg_type == codes "REDIRECT"
        then (d, close_conn conn ∷ out, false)
        else if msg.msg_type == codes "TRANSACTION_RESULT"
        then (c, msg_cl_in msg ∷ [], true)
        else (c, [], true)
  ]
]

-- What the loop of `Start` prints for a result.
pub data Shown : Type 0 where
  success : ℤ → ℤ → Shown
  failure : Text → Shown
  sequence_problem : ℤ → ℤ → Shown

-- What it does with a message from `msgClIn`.
unfoldable pub handle_result : DistributedExtCl → CommProto → DistributedExtCl × Shown
handle_result c msg =
    let response = msg.txn_response in
    (
      record c { seq_num = add_int c.seq_num (pos 1) },
      if c.seq_num == response.client_seq
          then (if response.txn_res.error_string == []
              then success response.txn_res.account_num response.txn_res.balance
              else failure response.txn_res.error_string)
          else sequence_problem c.seq_num msg.val.client_seq,
    )

-- The loops that ask until the answer is allowed; `none` waits for more input.
unfoldable pub ask : (ℤ → Bool) → List ℤ → Option (ℤ × List ℤ)
ask refused [] = none
ask refused (x ∷ input) = if refused x then ask refused input else some (x, input)

abbrev pub is_negative : ℤ → Bool
is_negative x = ltb_ℤ x (pos 0)

unfoldable pub ask_amount : ℤ → List ℤ → Option (ℤ × List ℤ)
unfolding ask
ask_amount trans_type input =
    if not (trans_type == pos 0) then ask is_negative input else some (pos 0, input)

-- The questions of `clHandleOutgoingMsg`.
unfoldable pub ask_transaction : DistributedExtCl → List ℤ → Option (DistributedExtCl × List ℤ)
unfolding ask ask_amount
ask_transaction c input = do
  (accnt, input') ← ask is_negative input
  (trans, input'') ← ask (λ x. ltb_ℤ x (pos 0) || ltb_ℤ (pos 2) x) input'
  (amnt, rest) ← ask_amount trans input''
  some (record c { usr_accnt_num = accnt; usr_trans_type = trans; usr_amnt = amnt }, rest)

-- `clHandleOutgoingMsg` for one request to read the user's input: connect, if need be, and send.
unfoldable pub handle_outgoing_msg :
    Surroundings → List ℤ → DistributedExtCl → Option (DistributedExtCl × List Action × List ℤ)
unfolding ask_transaction conn_to_server
handle_outgoing_msg net input c = do
  (d, rest) ← ask_transaction c input
  let asked = record d { read_input = true }
  let (e, out) = if is_nil asked.ldr_node_conn then conn_to_server net true asked else (asked, [])
  some (record e { read_input = false }, out ++ go_send ∷ [], rest)
