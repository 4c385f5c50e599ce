-- ===== src/Network.antt =====
-- lab6/network: the data of defs.go. TCP and the gob encoding are outside the model: a connection
-- is a number, what is written to it is an output, and the result of a write is an argument.
pub mod Server
pub mod Client
use multi_paxos_work_in_prog.Common.{
  ℕ, ℤ, pos, int_eq, nat_eq, list_eq, Bool, true, false, List, [], ◌∷◌, Option, none, some,
}
use multi_paxos_work_in_prog.Common.GoMap.{GoMap, lookup}
use multi_paxos_work_in_prog.Common.Text.{Text, codes}
use multi_paxos_work_in_prog.Detector.{Heartbeat}
use multi_paxos_work_in_prog.Paxos.{
  Value, zero_value, Response, Prepare, PromiseSlot, Promise, Accept, Learn,
}

abbrev pub Conn : Type 0
Conn = ℕ

-- `MapOfIPAddrNodeIDs` and `mapOfNodeIDsIPAddr`
abbrev pub node_ids_by_addr : GoMap Text ℤ
node_ids_by_addr =
    (codes "152.94.1.100", pos 0)
    ∷ (codes "152.94.1.110", pos 1)
    ∷ (codes "152.94.1.118", pos 2)
    ∷ []

abbrev pub addrs_by_node_id : GoMap ℤ Text
addrs_by_node_id =
    (pos 0, codes "152.94.1.100")
    ∷ (pos 1, codes "152.94.1.110")
    ∷ (pos 2, codes "152.94.1.118")
    ∷ []

-- `m[k]` of a map of strings
abbrev pub or_empty : Option Text → Text
or_empty none = []
or_empty (some t) = t

-- `m[k]` of a map of connections, where nil is `none`
abbrev pub or_no_conn : Option (Option Conn) → Option Conn
or_no_conn none = none
or_no_conn (some c) = c

pub record CommProto : Type 0 where
  pub msg_type : Text
  pub from_node_id : ℤ
  pub to_node_id : ℤ
  pub slot_id : ℤ
  pub rnd : ℤ
  pub val : Value
  pub slots : Option (List PromiseSlot)
  pub ip_addr : Text
  pub txn_response : Response
  pub state_type : ℤ
  pub request : Bool

-- the fields that a literal leaves out
abbrev pub zero_comm_proto : CommProto
zero_comm_proto = record {
  msg_type = [];
  from_node_id = pos 0;
  to_node_id = pos 0;
  slot_id = pos 0;
  rnd = pos 0;
  val = zero_value;
  slots = none;
  ip_addr = [];
  txn_response = record {
    client_id = [];
    client_seq = pos 0;
    txn_res = record { account_num = pos 0; balance = pos 0; error_string = [] };
  };
  state_type = pos 0;
  request = false;
}

-- What a handler of the server does to the other parts: the `Deliver` methods of the roles and of
-- the failure detector, the channel to the client part, and the connections.
pub data Delivery : Type 0 where
  deliver_heartbeat : Heartbeat → Delivery
  deliver_prepare : Prepare → Delivery
  deliver_promise : Promise → Delivery
  deliver_accept : Accept → Delivery
  deliver_learn : Learn → Delivery
  deliver_client_value : Value → Delivery
  increment_all_decided : Delivery
  msg_srv_out : CommProto → Delivery
  write_to : Conn → CommProto → Delivery
  close : Conn → Delivery

-- `m[k]` of a map of node ids
abbrev pub or_first_node : Option ℤ → ℤ
or_first_node none = pos 0
or_first_node (some id) = id

abbrev pub node_of : Text → ℤ
node_of host = or_first_node (lookup host node_ids_by_addr)

-- What a read of a message gives.
pub data ReadResult : Type 0 where
  read_eof read_error : ReadResult
  read_msg : CommProto → ReadResult
