-- ===== src/Network/Client/Broadcast.antt =====
-- Prepares, accepts and learns go to every peer (`clHandleOutgoingMsg` of lab6/network/client.go).
use multi_paxos_work_in_prog.Common.{
  ◌==◌, int_eq, nat_eq, list_eq, Bool, true, false, List, [], ◌∷◌, Option, none, some, All, count,
  length, ◌≡◌, refl, ◌∙◌, arith,
}
use multi_paxos_work_in_prog.Common.Classes.{list_beq}
use multi_paxos_work_in_prog.Common.GoMap.{GoMap, Distinct, Listing, count-Listing}
use multi_paxos_work_in_prog.Common.Text.{Text, codes}
use multi_paxos_work_in_prog.Network.{Conn, CommProto, Delivery, write_to}
use multi_paxos_work_in_prog.Network.Client.{
  DistributedCl, addressed, send_data_to_server, send_to_each, handle_outgoing_msg,
}
use multi_paxos_work_in_prog.Network.Server.{DistributedSrv, handle_peer_in_msg}
use multi_paxos_work_in_prog.Network.Server.Messages.{on_wire}

-- the entry has a connection
abbrev pub is_open : Text × Option Conn → Bool
is_open (host, none) = false
is_open (host, some c) = true

-- the connection is that of the entry
abbrev pub holds : Conn → Text × Option Conn → Bool
holds conn (host, none) = false
holds conn (host, some c) = c == conn

-- the connections that are written to, one for each write
abbrev pub written_to : List Delivery → List Conn
written_to [] = []
written_to (write_to conn m ∷ out) = conn ∷ written_to out
written_to (_ ∷ out) = written_to out

-- The messages have the effect of `msg` on a peer.
abbrev pub SameEffect : DistributedSrv → CommProto → List CommProto → Type 0
SameEffect peer msg = All (λ m. handle_peer_in_msg peer m ≡ handle_peer_in_msg peer msg)

-- A message whose effect does not depend on its `to_node_id`.
abbrev AnyNode : DistributedSrv → CommProto → Type 0
AnyNode peer msg =
    (b : Bool) (host : Text)
    → handle_peer_in_msg peer (addressed b host msg) ≡ handle_peer_in_msg peer msg

send_to_each-reaches :
    (b : Bool) (eof : Text → Bool) (peer : DistributedSrv) (c : DistributedCl) (msg : CommProto)
    (conn : Conn) (l : GoMap Text (Option Conn))
    → AnyNode peer msg
    → let out = (send_to_each b eof c msg l).1 in
      (length (on_wire out) ≡ count is_open l)
      × (count (λ k. k == conn) (written_to out) ≡ count (holds conn) l)
      × SameEffect peer msg (on_wire out)
unfolding send_to_each send_data_to_server
send_to_each-reaches b eof peer c msg conn [] any = (refl, refl, tt)
send_to_each-reaches b eof peer c msg conn ((host, none) ∷ l) any =
    let (all, to_conn, effect) = send_to_each-reaches b eof peer c msg conn l any in
    (omega (arith, all), omega (arith, to_conn), effect)
send_to_each-reaches b eof peer c msg conn ((host, some other) ∷ l) any =
    let i =
      send_to_each-reaches b eof peer
        (send_data_to_server eof c host (some other) (addressed b host msg)).0 msg conn l any in
    ground (arith, i, any b host)

-- the types of the messages that go to all peers
pub data Broadcasts (msg : CommProto) : Type 0 where
  prepares : msg.msg_type ≡ codes "PREPARE" → Broadcasts msg
  accepts : msg.msg_type ≡ codes "ACCEPT" → Broadcasts msg
  learns : msg.msg_type ≡ codes "LEARN" → Broadcasts msg

Broadcasts-AnyNode : (peer : DistributedSrv) (msg : CommProto) → Broadcasts msg → AnyNode peer msg
unfolding handle_peer_in_msg list_beq
Broadcasts-AnyNode peer msg (prepares h) true host = rw h refl
Broadcasts-AnyNode peer msg (accepts h) true host = rw h refl
Broadcasts-AnyNode peer msg (learns h) true host = rw h refl
Broadcasts-AnyNode peer msg _ false host = refl

-- If the map has each host once and the run-time visits each entry once, a prepare, an accept or a
-- learn is written to a connection as often as it is in the map, so that every open connection is
-- written to once where each host has its own; nothing else is written; and each message written has
-- on the peer that gets it the effect of the message itself.
pub broadcast_reaches_all :
    (range : GoMap Text (Option Conn) → GoMap Text (Option Conn)) (eof : Text → Bool)
    (c : DistributedCl) (peer : DistributedSrv) (msg : CommProto) (conn : Conn)
    → Distinct c.server_ip_addr_conns
    → Listing c.server_ip_addr_conns (range c.server_ip_addr_conns)
    → Broadcasts msg
    → let out = (handle_outgoing_msg range eof c msg).1 in
      (length (on_wire out) ≡ count is_open c.server_ip_addr_conns)
      × (count (λ k. k == conn) (written_to out) ≡ count (holds conn) c.server_ip_addr_conns)
      × SameEffect peer msg (on_wire out)
unfolding handle_outgoing_msg list_beq
broadcast_reaches_all range eof c peer msg conn d visits kind = by_type kind
  where
    Reaches : DistributedCl × List Delivery → Type 0
    Reaches r =
        (length (on_wire r.1) ≡ count is_open c.server_ip_addr_conns)
        × (count (λ k. k == conn) (written_to r.1) ≡ count (holds conn) c.server_ip_addr_conns)
        × SameEffect peer msg (on_wire r.1)

    each : (b : Bool) → Reaches (send_to_each b eof c msg (range c.server_ip_addr_conns))
    each b =
        let entries = range c.server_ip_addr_conns in
        let (all, to_conn, effect) =
          send_to_each-reaches b eof peer c msg conn entries (Broadcasts-AnyNode peer msg kind) in
        (
          all ∙ count-Listing is_open c.server_ip_addr_conns entries d visits,
          to_conn ∙ count-Listing (holds conn) c.server_ip_addr_conns entries d visits,
          effect,
        )

    by_type : Broadcasts msg → Reaches (handle_outgoing_msg range eof c msg)
    by_type (prepares h) = simp h (each true)
    by_type (accepts h) = simp h (each true)
    by_type (learns h) = simp h (each false)
