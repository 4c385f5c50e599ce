-- ===== src/ExtClient/Redirects.antt =====
-- A client (lab6/external_client_application/extClient.go) that asks a node which is not the leader
-- (lab6/network/server.go).
use multi_paxos_work_in_prog.Common.{
  ℕ, zero, suc, ◌+◌, ℤ, pos, negsuc, int_eq, int_beq_iff, nat_eq, list_eq, leb, ◌==◌, not, ◌&&◌,
  Bool, true, false, if◌then◌else◌, List, [], ◌∷◌, ◌++◌, Option, none, some, ◌≡◌, ◌≢◌, refl, ◌∙◌,
  sym, ap, subst, inl, inr, arith, Bool-cases,
}
use multi_paxos_work_in_prog.Common.GoMap.{lookup}
use multi_paxos_work_in_prog.Common.Text.{Text, codes}
use multi_paxos_work_in_prog.Network.{
  Conn, CommProto, zero_comm_proto, node_of, addrs_by_node_id, or_empty, read_msg, Delivery,
  deliver_client_value, write_to, close,
}
use multi_paxos_work_in_prog.Network.Server.{
  DistributedSrv, WriteResult, written, eof_error, other_error, recv_ext_cl_msg, handle_peer_in_msg,
}
use multi_paxos_work_in_prog.Common.Int.{int_beq}
use multi_paxos_work_in_prog.ExtClient.Connecting.{connected_loop, loop_again}
use multi_paxos_work_in_prog.ExtClient.{
  DistributedExtCl, Action, dial, encode, close_conn, go_handle_incoming, go_send, stop_client,
  Surroundings, choose_host, attempt, conn_loop, conn_to_server, client_value, client_request,
  send_data_to_server, handle_redirect, handle_incoming_msg,
}

named_host : (id : ℤ) (host : Text) → lookup id addrs_by_node_id ≡ some host → (host == []) ≡ false
unfolding lookup int_beq multi_paxos_work_in_prog.Common.Classes.list_beq
named_host (pos zero) host h =
    let same : codes "152.94.1.100" ≡ host = cc h in subst (λ t. (t == []) ≡ false) same refl
named_host (pos (suc zero)) host h =
    let same : codes "152.94.1.110" ≡ host = cc h in subst (λ t. (t == []) ≡ false) same refl
named_host (pos (suc (suc zero))) host h =
    let same : codes "152.94.1.118" ≡ host = cc h in subst (λ t. (t == []) ≡ false) same refl
named_host (pos (suc (suc (suc n)))) host h = absurd (ground (arith, h))
named_host (negsuc n) host h = absurd (ground (arith, h))

-- what a node that is not the leader answers, with the address of the leader
abbrev pub redirection : ℤ → Text → CommProto
redirection id host = record zero_comm_proto {
  msg_type = codes "REDIRECT";
  from_node_id = id;
  ip_addr = host;
}

redirects :
    (result : WriteResult) (srv : DistributedSrv) (host : Text) (conn : Conn) (m : CommProto)
    (leader_host : Text)
    → srv.cur_leader ≢ srv.id
    → lookup srv.cur_leader addrs_by_node_id ≡ some leader_host
    → (rest : List Delivery) × ((recv_ext_cl_msg result srv host conn m).1
        ≡ write_to conn (redirection srv.id leader_host) ∷ rest)
unfolding recv_ext_cl_msg
redirects result srv host conn m leader_host other at =
    let not_leader : (srv.cur_leader == srv.id) ≡ false =
      ground (arith, int_beq_iff srv.cur_leader srv.id) in
    let sent = ap (λ o. write_to conn (redirection srv.id (or_empty o))) at in
    elim result
      as (λ r.
        (rest : List Delivery) × ((recv_ext_cl_msg r srv host conn m).1
          ≡ write_to conn (redirection srv.id leader_host) ∷ rest)) [
            | written ↦ (close conn ∷ [], rw not_leader (ap (λ d. d ∷ close conn ∷ []) sent))
            | eof_error ↦ (close conn ∷ [], rw not_leader (ap (λ d. d ∷ close conn ∷ []) sent))
            | other_error ↦ ([], rw not_leader (ap (λ d. d ∷ []) sent))
          ]

accepts_value :
    (result : WriteResult) (srv : DistributedSrv) (host addr : Text) (conn : Conn)
    (c : DistributedExtCl)
    → srv.cur_leader ≡ srv.id
    → (recv_ext_cl_msg result srv host conn (client_request addr c)).1
      ≡ deliver_client_value (client_value addr c) ∷ []
unfolding recv_ext_cl_msg handle_peer_in_msg client_request
    multi_paxos_work_in_prog.Common.Classes.list_beq
accepts_value result srv host addr conn c same =
    let leads : (srv.cur_leader == srv.id) ≡ true =
      ground (arith, int_beq_iff srv.cur_leader srv.id) in
    rw leads refl

-- the client, connected to the host
abbrev pub connected_to : DistributedExtCl → Text → Conn → DistributedExtCl
connected_to c host conn = record c {
  rand_node_id = node_of host;
  ldr_node_host = host;
  ldr_node_conn = some conn;
  ldr_conn_retry_cnt = 0;
}

choose_named :
    (net : Surroundings) (c : DistributedExtCl)
    → (c.ldr_node_host == []) ≡ false
    → choose_host net c ≡ record c { rand_node_id = node_of c.ldr_node_host }
unfolding choose_host
choose_named net c named = rw named refl

attempt_up :
    (net : Surroundings) (c : DistributedExtCl) (conn : Conn)
    → (c.ldr_node_host == []) ≡ false
    → net.dials c.ldr_conn_retry_cnt c.ldr_node_host ≡ some conn
    → attempt net true c ≡ (
      record c { rand_node_id = node_of c.ldr_node_host; ldr_node_conn = some conn },
      dial c.ldr_node_host ∷ go_handle_incoming ∷ [],
    )
unfolding attempt
attempt_up net c conn named up = ap outcome (choose_named net c named) ∙ rw up refl
  where
    outcome : DistributedExtCl → DistributedExtCl × List Action
    outcome d = elim (net.dials d.ldr_conn_retry_cnt d.ldr_node_host) [
      | none ↦ (
        record d { ldr_node_host = []; ldr_conn_retry_cnt = d.ldr_conn_retry_cnt + 1 },
        dial d.ldr_node_host ∷ [],
      )
      | some made ↦
          (record d { ldr_node_conn = some made }, dial d.ldr_node_host ∷ go_handle_incoming ∷ [])
    ]

-- The client that has lost its connection and knows the leader's host, before its first dial.
abbrev looking_for : DistributedExtCl → Text → DistributedExtCl
looking_for c host = record c { ldr_node_conn = none; ldr_node_host = host; ldr_conn_retry_cnt = 0 }

loop_up :
    (net : Surroundings) (c : DistributedExtCl) (host : Text) (conn : Conn)
    → (host == []) ≡ false
    → net.dials 0 host ≡ some conn
    → conn_loop 5 net true (looking_for c host)
      ≡ (connected_to c host conn, dial host ∷ go_handle_incoming ∷ [])
loop_up net c host conn named up =
    loop_again 4 net true (looking_for c host) refl (omega arith)
    ∙ ap
        (λ (r : DistributedExtCl × List Action).
          ((conn_loop 4 net true r.0).0, r.1 ++ (conn_loop 4 net true r.0).1))
        (attempt_up net (looking_for c host) conn named up)
    ∙ ap (λ (r : DistributedExtCl × List Action). (r.0, dial host ∷ go_handle_incoming ∷ r.1))
        (connected_loop 4 net true (connected_to c host conn) refl)

connects :
    (net : Surroundings) (c : DistributedExtCl) (host : Text) (conn : Conn)
    → (host == []) ≡ false
    → net.dials 0 host ≡ some conn
    → conn_to_server net true (record c { ldr_node_conn = none; ldr_node_host = host })
      ≡ (connected_to c host conn, dial host ∷ go_handle_incoming ∷ [])
unfolding conn_to_server
connects net c host conn named up =
    ap
      (λ (r : DistributedExtCl × List Action).
        (r.0, r.1 ++ (if leb 3 r.0.ldr_conn_retry_cnt then stop_client ∷ [] else [])))
      (loop_up net c host conn named up)

follows :
    (net : Surroundings) (c : DistributedExtCl) (old conn : Conn) (id : ℤ) (host : Text)
    → (host == []) ≡ false
    → net.dials 0 host ≡ some conn
    → handle_incoming_msg net
        (read_msg (redirection id host))
        (record c { ldr_node_conn = some old })
      ≡ (
        connected_to c host conn,
        close_conn old ∷ dial host ∷ go_handle_incoming ∷ go_send ∷ [],
        false,
      )
unfolding handle_incoming_msg handle_redirect multi_paxos_work_in_prog.Common.Classes.list_beq
follows net c old conn id host named up =
    ap
      (λ (r : DistributedExtCl × List Action). (r.0, close_conn old ∷ (r.1 ++ go_send ∷ []), false))
      (connects net c host conn named up)

-- A client that is connected to a node which follows another leader: if the leader's address is
-- known, the client's first dial to it succeeds and the leader knows that it leads, then the node
-- answers the request with a redirection; on reading it the client leaves the node and dials the
-- leader; what it sends there is the same request; and the leader gives the value of that request
-- to its proposer.
pub redirected_to_leader :
    (result result' : WriteResult) (net : Surroundings) (addr : Text) (old conn : Conn)
    (srv leader : DistributedSrv) (c : DistributedExtCl) (host : Text)
    → srv.cur_leader ≢ srv.id
    → leader.id ≡ srv.cur_leader
    → leader.cur_leader ≡ leader.id
    → lookup srv.cur_leader addrs_by_node_id ≡ some host
    → net.dials 0 host ≡ some conn
    → let request = client_request addr c in
      ((rest : List Delivery) × ((recv_ext_cl_msg result srv addr old request).1
          ≡ write_to old (redirection srv.id host) ∷ rest))
      × (handle_incoming_msg net
            (read_msg (redirection srv.id host))
            (record c { ldr_node_conn = some old })
          ≡ (
            connected_to c host conn,
            close_conn old ∷ dial host ∷ go_handle_incoming ∷ go_send ∷ [],
            false,
          ))
      × (send_data_to_server written addr (connected_to c host conn)
          ≡ (connected_to c host conn, encode conn request ∷ []))
      × ((recv_ext_cl_msg result' leader addr conn request).1
          ≡ deliver_client_value (client_value addr c) ∷ [])
unfolding send_data_to_server client_request
redirected_to_leader result result' net addr old conn srv leader c host other id leads at up =
    let named = named_host srv.cur_leader host at in
    (
      redirects result srv addr old (client_request addr c) host other at,
      follows net c old conn srv.id host named up,
      refl,
      accepts_value result' leader addr addr conn c leads,
    )
