-- ===== src/PeerNetwork/Sending.antt =====
-- lab3/network/TCP.go: sending, broadcasting and what the goroutines do with what they read.
use multi_paxos_work_in_prog.Common.{
  ℤ, int_eq, ◌==◌, Bool, if◌then◌else◌, List, [], ◌∷◌, ◌++◌, map, Option, none, some,
}
use multi_paxos_work_in_prog.Common.GoMap.{lookup}
use multi_paxos_work_in_prog.Common.Text.{Text}
use multi_paxos_work_in_prog.PeerNetwork.{
  Conn, Node, Network, NetError, no_connection, marshal_failed, write_failed,
}

-- `payload` stands for the fields Value, Promise, Accept, Prepare and Learn, whose types are those of
-- lab4/singlepaxos.
pub record Message (P : Type 0) : Type 0 where
  pub to : ℤ
  pub from : ℤ
  pub msg : Text
  pub kind : Text
  pub request : Bool
  pub payload : P

-- What becomes of a message: it goes to `RChan`, or on a connection.
pub data Delivery (P : Type 0) : Type 0 where
  r_chan : Message P → Delivery P
  wrote : Conn → Message P → Delivery P

-- How the encoding and the write of a message fare.
pub record Link (P : Type 0) : Type 0 where
  pub marshals : Message P → Bool
  pub writes : Conn → Message P → Bool

module _ {P : Type 0} (link : Link P) where
  unfoldable pub send_conn : Conn → Message P → List (Delivery P) × Option NetError
  send_conn conn m =
      if link.marshals m
      then if link.writes conn m then (wrote conn m ∷ [], none) else ([], some write_failed)
      else ([], some marshal_failed)

  unfoldable pub send_to : Option Conn → Message P → List (Delivery P) × Option NetError
  unfolding send_conn
  send_to none m = ([], some no_connection)
  send_to (some conn) m = send_conn conn m

  unfoldable pub send : Network → Message P → List (Delivery P) × Option NetError
  unfolding send_to
  send n m =
      if m.to == n.node_index.id
      then (r_chan m ∷ [], none)
      else send_to (lookup m.to n.connections) m

  -- The loops of `Multicast` and `BroadcastIDX`, which log the errors.
  unfoldable pub multicast : Network → List ℤ → Message P → List (Delivery P)
  unfolding send
  multicast n [] m = []
  multicast n (id ∷ ids) m = (send n (record m { to = id })).0 ++ multicast n ids m

  abbrev pub node_ids : List Node → List ℤ
  node_ids = map λ node. node.id

  unfoldable pub broadcast : Network → Message P → List (Delivery P)
  unfolding multicast
  broadcast n m = multicast n (node_ids n.nodes) m

-- A read of a connection: an error, or a message as `json.Unmarshal` leaves it, with its success.
pub data Read (P : Type 0) : Type 0 where
  read_failed : Read P
  read_msg : Message P → Bool → Read P

-- What `ListenMsg` and `ListenClient` put on `RChan`. They end at an error of a read, and log that
-- of the decoding.
unfoldable pub listen : {P : Type 0} → List (Read P) → List (Message P)
listen [] = []
listen (read_failed ∷ reads) = []
listen (read_msg m ok ∷ reads) = m ∷ listen reads
