-- ===== src/PeerNetwork/Heartbeats.antt =====
-- lab3/main/main.go: the loop between the failure detector and the network, and a heartbeat request
-- and its reply on their way through both.
use multi_paxos_work_in_prog.Common.{
  ℤ, int_eq, nat_eq, list_eq, ◌==◌, Bool, true, false, if◌then◌else◌, List, [], ◌∷◌, ◌++◌, some,
  ◌≡◌, ◌≢◌, refl, arith, ap, sym, subst, ◌∙◌,
}
use multi_paxos_work_in_prog.Common.Classes.{list_beq}
use multi_paxos_work_in_prog.Common.Int.{int_beq_iff}
use multi_paxos_work_in_prog.Common.GoMap.{GoMap, lookup, insert, lookup-insert}
use multi_paxos_work_in_prog.Common.Text.{codes}
use multi_paxos_work_in_prog.Detector.{Heartbeat, is_set}
use multi_paxos_work_in_prog.Detector.Failure.{
  EvtFailureDetector, Output, hb_send, sr_suspect, sr_restore, request_to, handle_heartbeat,
  timeout,
}
use multi_paxos_work_in_prog.Detector.Failure.Timeouts.{member, timeout-suspected}
use multi_paxos_work_in_prog.PeerNetwork.{Conn, Network}
use multi_paxos_work_in_prog.PeerNetwork.Sending.{
  Message, Delivery, r_chan, wrote, Link, send_conn, send_to, send,
}

-- What the loop does with a message from `RChan`.
pub data Routed (P : Type 0) : Type 0 where
  deliver_heartbeat : Heartbeat → Routed P
  unmod_r_chan : Message P → Routed P

abbrev pub request : EvtFailureDetector → EvtFailureDetector → Heartbeat
request a b = record { to = b.id; from = a.id; request = true }

abbrev pub reply : EvtFailureDetector → EvtFailureDetector → Heartbeat
reply a b = record { to = a.id; from = b.id; request = false }

module _ {P : Type 0} (zero_payload : P) where
  -- The message that the loop makes of a heartbeat from the failure detector.
  unfoldable pub net_msg : Heartbeat → Message P
  net_msg hb = record {
    kind = codes "heartbeat";
    to = hb.to;
    from = hb.from;
    msg = [];
    request = hb.request;
    payload = zero_payload;
  }

  unfoldable pub route : Message P → Routed P
  route m =
      if m.kind == codes "heartbeat"
      then deliver_heartbeat (record { to = m.to; from = m.from; request = m.request })
      else unmod_r_chan m

  -- The failure detector after a message that its node gets.
  unfoldable pub on_message : EvtFailureDetector → Message P → EvtFailureDetector × List Output
  unfolding route handle_heartbeat
  on_message e m = elim (route m) [
    | deliver_heartbeat hb ↦ handle_heartbeat e hb
    | unmod_r_chan other ↦ (e, [])
  ]

  unfoldable pub on_messages :
      EvtFailureDetector → List (Message P) → EvtFailureDetector × List Output
  unfolding on_message
  on_messages e [] = (e, [])
  on_messages e (m ∷ ms) =
      let (e', out) = on_message e m in let (e'', outs) = on_messages e' ms in (e'', out ++ outs)

  -- The message that a delivery brings to its receiver.
  abbrev arrival : Delivery P → Message P
  arrival (r_chan m) = m
  arrival (wrote conn m) = m

  abbrev arrivals : List (Delivery P) → List (Message P)
  arrivals [] = []
  arrivals (d ∷ ds) = arrival d ∷ arrivals ds

  -- The messages that arrive of what a failure detector sends.
  unfoldable pub sent : Link P → Network → List Output → List (Message P)
  unfolding net_msg send
  sent link n [] = []
  sent link n (hb_send hb ∷ out) = arrivals (send link n (net_msg hb)).0 ++ sent link n out
  sent link n (sr_suspect id ∷ out) = sent link n out
  sent link n (sr_restore id ∷ out) = sent link n out

  route-net_msg : (hb : Heartbeat) → route (net_msg hb) ≡ deliver_heartbeat hb
  unfolding route net_msg list_beq
  route-net_msg hb = refl

  -- The message has a connection that takes it, to another node.
  pub record Takes (link : Link P) (n : Network) (m : Message P) : Type 0 where
    pub foreign : m.to ≢ n.node_index.id
    pub conn : Conn
    pub connected : lookup m.to n.connections ≡ some conn
    pub marshalled : link.marshals m ≡ true
    pub written : link.writes conn m ≡ true

  sent_one :
      (link : Link P) (n : Network) (hb : Heartbeat)
      → Takes link n (net_msg hb)
      → sent link n (hb_send hb ∷ []) ≡ net_msg hb ∷ []
  unfolding sent send send_to send_conn
  sent_one link n hb t =
      let m = net_msg hb in
      let other : (m.to == n.node_index.id) ≡ false =
        ground (arith, int_beq_iff m.to n.node_index.id, t.foreign) in
      rw (other, send, t.connected, t.marshalled, t.written) refl

  on_heartbeat :
      (e : EvtFailureDetector) (hb : Heartbeat)
      → on_messages e (net_msg hb ∷ [])
        ≡ ((handle_heartbeat e hb).0, (handle_heartbeat e hb).1 ++ [])
  unfolding on_messages on_message route net_msg list_beq
  on_heartbeat e hb = refl

  -- The reply to a request, and the node that is alive after a reply.
  on_request :
      (a b : EvtFailureDetector)
      → (on_messages b (net_msg (request a b) ∷ [])).1 ≡ hb_send (reply a b) ∷ []
  unfolding handle_heartbeat
  on_request a b = ap (λ r. r.1) (on_heartbeat b (request a b))

  on_reply :
      (a b : EvtFailureDetector)
      → (on_messages a (net_msg (reply a b) ∷ [])).0 ≡ record a { alive = insert b.id true a.alive }
  unfolding handle_heartbeat
  on_reply a b = ap (λ r. r.0) (on_heartbeat a (reply a b))

  -- The failure detector of `a` after its request to `b` and all that `b` sends for it.
  abbrev pub exchange :
      Link P → Network → Network → EvtFailureDetector → EvtFailureDetector → EvtFailureDetector
  exchange link at_a at_b a b =
      (on_messages a
        (sent link at_b (on_messages b (sent link at_a (request_to a.id b.id ∷ []))).1)).0

  exchange-alive :
      (link : Link P) (at_a at_b : Network) (a b : EvtFailureDetector)
      → Takes link at_a (net_msg (request a b))
      → Takes link at_b (net_msg (reply a b))
      → exchange link at_a at_b a b ≡ record a { alive = insert b.id true a.alive }
  unfolding request_to
  exchange-alive link at_a at_b a b there back =
      ap (λ ms. (on_messages a (sent link at_b (on_messages b ms).1)).0)
        (sent_one link at_a (request a b) there)
      ∙ ap (λ out. (on_messages a (sent link at_b out)).0) (on_request a b)
      ∙ ap (λ ms. (on_messages a ms).0) (sent_one link at_b (reply a b) back)
      ∙ on_reply a b

-- Two nodes with connections to each other that take the two messages: when the request that the
-- failure detector of `a` sends to `b` at a timeout goes through the main loops and the networks of
-- both, `b` is alive to `a`, and at the next timeout `a` does not suspect it, if `b` is one of the
-- nodes that it watches.
pub answered_not_suspected :
    {P : Type 0} (zero_payload : P) (link : Link P) (at_a at_b : Network) (a b : EvtFailureDetector)
    (range : GoMap ℤ Bool → GoMap ℤ Bool)
    → Takes zero_payload link at_a (net_msg zero_payload (request a b))
    → Takes zero_payload link at_b (net_msg zero_payload (reply a b))
    → member b.id a.node_ids ≡ true
    → let after = exchange zero_payload link at_a at_b a b in
      (is_set (lookup b.id after.alive) ≡ true)
      × (is_set (lookup b.id (timeout range after).0.suspected) ≡ false)
answered_not_suspected zero_payload link at_a at_b a b range there back watched =
    let after = exchange zero_payload link at_a at_b a b in
    let same = exchange-alive zero_payload link at_a at_b a b there back in
    let alive : is_set (lookup b.id after.alive) ≡ true =
      subst (λ e. is_set (lookup b.id e.alive) ≡ true) (sym same)
        (ground (arith, lookup-insert b.id b.id true a.alive, int_beq_iff b.id b.id)) in
    let watches : member b.id after.node_ids ≡ true =
      subst (λ e. member b.id e.node_ids ≡ true) (sym same) watched in
    (alive, ground (arith, (timeout-suspected range after b.id).0))
