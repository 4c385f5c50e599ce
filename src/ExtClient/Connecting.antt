-- ===== src/ExtClient/Connecting.antt =====
-- How the client of lab6/external_client_application/extClient.go connects (`clConnToServer`).
use multi_paxos_work_in_prog.Common.{
  ℕ, zero, suc, ◌+◌, ◌≤◌, nat_eq, leb, ◌&&◌, Bool, true, false, if◌then◌else◌, List, [], ◌∷◌, ◌++◌,
  none, some, ◌≡◌, refl, ◌∙◌, sym, ap, subst, list_eq, ◌==◌, ◌⊎◌, inl, inr, arith, Bool-cases,
  Option-cases,
}
use mathlib.Core.List.{append-nil, append_assoc}
use multi_paxos_work_in_prog.Common.Text.{Text}
use multi_paxos_work_in_prog.ExtClient.{
  DistributedExtCl, Action, go_handle_incoming, stop_client, Surroundings, choose_host, attempt,
  is_nil, conn_loop, conn_to_server,
}
use multi_paxos_work_in_prog.Network.{Conn}
use multi_paxos_work_in_prog.ExtClient.Actions.{
  stops, stops-append, dials_made, dials_made-append, dialled, dialled-append,
}

choose_host-keeps :
    (net : Surroundings) (c : DistributedExtCl)
    → ((choose_host net c).ldr_node_conn ≡ c.ldr_node_conn)
      × ((choose_host net c).ldr_conn_retry_cnt ≡ c.ldr_conn_retry_cnt)
unfolding choose_host
choose_host-keeps net c = elim (Bool-cases (c.ldr_node_host == [])) [
  | inl e ↦ rw e (refl, refl)
  | inr e ↦ rw e (refl, refl)
]

-- What one round of the loop comes to.
record Attempted (net : Surroundings) (c d : DistributedExtCl) (out : List Action) : Type 0 where
  result :
      ((d.ldr_node_conn ≡ c.ldr_node_conn) × (d.ldr_conn_retry_cnt ≡ c.ldr_conn_retry_cnt + 1))
      ⊎ ((conn : Conn) × (d.ldr_node_conn ≡ some conn)
          × (d.ldr_conn_retry_cnt ≡ c.ldr_conn_retry_cnt)
          × (net.dials d.ldr_conn_retry_cnt d.ldr_node_host ≡ some conn)
          × (dialled out ≡ d.ldr_node_host ∷ []))
  runs_on : stops out ≡ false
  once : dials_made out ≡ 1

attempt-Attempted :
    (net : Surroundings) (spawn : Bool) (c : DistributedExtCl)
    → Attempted net c (attempt net spawn c).0 (attempt net spawn c).1
unfolding attempt
attempt-Attempted net spawn c =
    let (conn, count) = choose_host-keeps net c in
    let d = choose_host net c in
    elim (Option-cases (net.dials d.ldr_conn_retry_cnt d.ldr_node_host)) [
      | inl e ↦
          rw (e, attempt)
            (record { result = inl (conn, ap (λ k. k + 1) count); runs_on = refl; once = refl })
      | inr (made, e) ↦
          rw (e, attempt)
            (record {
              result = inr (made, refl, count, e, only d.ldr_node_host spawn);
              runs_on = quiet spawn;
              once = one spawn;
            })
    ]
  where
    quiet : (b : Bool) → stops (if b then go_handle_incoming ∷ [] else []) ≡ false
    quiet true = refl
    quiet false = refl

    only :
        (host : Text) (b : Bool)
        → host ∷ dialled (if b then go_handle_incoming ∷ [] else []) ≡ host ∷ []
    only host true = refl
    only host false = refl

    one : (b : Bool) → suc (dials_made (if b then go_handle_incoming ∷ [] else [])) ≡ 1
    one true = refl
    one false = refl

pub connected_loop :
    (f : ℕ) (net : Surroundings) (spawn : Bool) (c : DistributedExtCl) {conn : Conn}
    → c.ldr_node_conn ≡ some conn
    → conn_loop f net spawn c ≡ (c, [])
unfolding conn_loop
connected_loop zero net spawn c e = refl
connected_loop (suc f) net spawn c e =
    let known : is_nil c.ldr_node_conn ≡ false = ap is_nil e in rw known refl

exhausted_loop :
    (f : ℕ) (net : Surroundings) (spawn : Bool) (c : DistributedExtCl)
    → c.ldr_conn_retry_cnt ≡ 4
    → conn_loop f net spawn c ≡ (c, [])
unfolding conn_loop
exhausted_loop zero net spawn c e = refl
exhausted_loop (suc f) net spawn c e =
    let over : (is_nil c.ldr_node_conn && leb c.ldr_conn_retry_cnt 3) ≡ false = ground (arith, e) in
    rw over refl

pub loop_again :
    (f : ℕ) (net : Surroundings) (spawn : Bool) (c : DistributedExtCl)
    → c.ldr_node_conn ≡ none
    → c.ldr_conn_retry_cnt ≤ 3
    → let (d, out) = attempt net spawn c in
      let (e, outs) = conn_loop f net spawn d in conn_loop (suc f) net spawn c ≡ (e, out ++ outs)
unfolding conn_loop
loop_again f net spawn c e few =
    let again : (is_nil c.ldr_node_conn && leb c.ldr_conn_retry_cnt 3) ≡ true =
      ground (arith, ap is_nil e, few) in
    rw again refl

-- What the loop leaves: a connection, made at an attempt up to the fourth, or four failures.
record Ended (net : Surroundings) (first : ℕ) (r : DistributedExtCl × List Action) : Type 0 where
  result :
      ((conn : Conn) × (earlier : List Text) × (r.0.ldr_node_conn ≡ some conn)
        × (net.dials r.0.ldr_conn_retry_cnt r.0.ldr_node_host ≡ some conn)
        × (dialled r.1 ≡ earlier ++ r.0.ldr_node_host ∷ [])
        × (r.0.ldr_conn_retry_cnt ≤ 3)
        × (first + dials_made r.1 ≡ r.0.ldr_conn_retry_cnt + 1))
      ⊎ ((r.0.ldr_node_conn ≡ none) × (r.0.ldr_conn_retry_cnt ≡ 4) × (first + dials_made r.1 ≡ 4))
  runs_on : stops r.1 ≡ false

before-Ended :
    (net : Surroundings) (first : ℕ) (c d : DistributedExtCl) (out : List Action)
    (r : DistributedExtCl × List Action)
    → d.ldr_conn_retry_cnt ≡ first + 1
    → stops out ≡ false
    → dials_made out ≡ 1
    → Ended net d.ldr_conn_retry_cnt r
    → Ended net first (r.0, out ++ r.1)
before-Ended net first c d out r next quiet one h = record {
  result = elim h.result [
    | inl (conn, earlier, e, reached, hosts, few, made) ↦ inl (
      conn,
      dialled out ++ earlier,
      e,
      reached,
      dialled-append out r.1
          ∙ ap (λ l. dialled out ++ l) hosts
          ∙ sym (append_assoc (dialled out) earlier (r.0.ldr_node_host ∷ [])),
      few,
      omega (arith, made, next, one, dials_made-append out r.1),
    )
    | inr (e, four, made) ↦ inr (e, four, omega (arith, made, next, one, dials_made-append out r.1))
  ];
  runs_on = stops-append out r.1 ∙ rw (quiet, h.runs_on) refl;
}

loop-Ended :
    (f : ℕ) (net : Surroundings) (spawn : Bool) (c : DistributedExtCl)
    → c.ldr_node_conn ≡ none
    → c.ldr_conn_retry_cnt ≤ 4
    → 5 ≤ f + c.ldr_conn_retry_cnt
    → Ended net c.ldr_conn_retry_cnt (conn_loop f net spawn c)
loop-Ended zero net spawn c e few enough = absurd (omega (arith, few, enough))
loop-Ended (suc f) net spawn c e few enough = elim (limit c.ldr_conn_retry_cnt few) [
  | inl four ↦
      subst (Ended net c.ldr_conn_retry_cnt) (sym (exhausted_loop (suc f) net spawn c four))
        (record { result = inr (e, four, omega (arith, four)); runs_on = refl })
  | inr more ↦
      let (d, out) = attempt net spawn c in
      let tried = attempt-Attempted net spawn c in
      subst (Ended net c.ldr_conn_retry_cnt) (sym (loop_again f net spawn c e more))
        (elim tried.result [
          | inl (same, next) ↦
              before-Ended net c.ldr_conn_retry_cnt c d out (conn_loop f net spawn d) next
                tried.runs_on tried.once
                (loop-Ended f net spawn d (same ∙ e) (omega (arith, next, more))
                  (omega (arith, next, enough)))
          | inr (conn, made, same, reached, host) ↦
              subst
                (λ (r : DistributedExtCl × List Action).
                  Ended net c.ldr_conn_retry_cnt (r.0, out ++ r.1))
                (sym (connected_loop f net spawn d made))
                (record {
                  result = inl (
                    conn,
                    [],
                    made,
                    reached,
                    ap dialled (append-nil out) ∙ host,
                    omega (arith, same, more),
                    omega (arith, same, tried.once, dials_made-append out []),
                  );
                  runs_on = stops-append out [] ∙ rw tried.runs_on refl;
                })
        ])
]
  where
    limit : (k : ℕ) → k ≤ 4 → (k ≡ 4) ⊎ (k ≤ 3)
    limit k h = ground arith

-- A connection, which the last of at most four dials made, and a stop exactly after the fourth; or
-- four dials, a stop and no connection.
abbrev pub ConnectsOrStops : Surroundings → DistributedExtCl × List Action → Type 0
ConnectsOrStops net (d, out) =
    ((conn : Conn) × (earlier : List Text) × (d.ldr_node_conn ≡ some conn)
      × (dialled out ≡ earlier ++ d.ldr_node_host ∷ [])
      × (net.dials d.ldr_conn_retry_cnt d.ldr_node_host ≡ some conn)
      × (dials_made out ≡ d.ldr_conn_retry_cnt + 1)
      × (dials_made out ≤ 4)
      × (stops out ≡ leb 4 (dials_made out)))
    ⊎ ((d.ldr_node_conn ≡ none) × (dials_made out ≡ 4) × (stops out ≡ true))

stop_after :
    (net : Surroundings) (r : DistributedExtCl × List Action)
    → Ended net 0 r
    → ConnectsOrStops net
        (r.0, r.1 ++ (if leb 3 r.0.ldr_conn_retry_cnt then stop_client ∷ [] else []))
stop_after net (d, out) h = elim h.result [
  | inl (conn, earlier, e, reached, hosts, few, made) ↦ inl (
    conn,
    earlier,
    e,
    dialled-append out last ∙ ap (λ l. dialled out ++ l) no_host ∙ append-nil (dialled out) ∙ hosts,
    reached,
    omega (arith, made, no_dial, dials_made-append out last),
    omega (arith, few, made, no_dial, dials_made-append out last),
    stops-append out last
        ∙ rw h.runs_on (stopped ∙ ground (arith, made, no_dial, dials_made-append out last)),
  )
  | inr (e, four, made) ↦ inr (
    e,
    omega (arith, made, no_dial, dials_made-append out last),
    stops-append out last ∙ rw h.runs_on (stopped ∙ ground (arith, four)),
  )
]
  where
    last : List Action
    last = if leb 3 d.ldr_conn_retry_cnt then stop_client ∷ [] else []

    no_dial : dials_made last ≡ 0
    no_dial = elim (Bool-cases (leb 3 d.ldr_conn_retry_cnt)) [
      | inl x ↦ rw x refl
      | inr x ↦ rw x refl
    ]

    no_host : dialled last ≡ []
    no_host = elim (Bool-cases (leb 3 d.ldr_conn_retry_cnt)) [
      | inl x ↦ rw x refl
      | inr x ↦ rw x refl
    ]

    stopped : stops last ≡ leb 3 d.ldr_conn_retry_cnt
    stopped = elim (Bool-cases (leb 3 d.ldr_conn_retry_cnt)) [
      | inl x ↦ rw x refl
      | inr x ↦ rw x refl
    ]

-- A client without a connection that tries to connect makes at most four dials, and ends in one of
-- two ways. Either it has the connection that its last dial gave, to the host that it keeps as the
-- leader's, and it is stopped exactly if that was the fourth one; or it has none, has made four dials, and is stopped.
pub conn_to_server_ends :
    (net : Surroundings) (spawn : Bool) (c : DistributedExtCl)
    → c.ldr_node_conn ≡ none
    → ConnectsOrStops net (conn_to_server net spawn c)
unfolding conn_to_server
conn_to_server_ends net spawn c e =
    stop_after net (conn_loop 5 net spawn (record c { ldr_conn_retry_cnt = 0 }))
      (loop-Ended 5 net spawn (record c { ldr_conn_retry_cnt = 0 }) e (omega arith) (omega arith))
