-- ===== src/Network/Client/Connecting.antt =====
-- How the peer part of a node connects to the servers of the others (`connToServers` of
-- lab6/network/client.go).
use multi_paxos_work_in_prog.Common.{
  nat_eq, list_eq, ◌==◌, true, if◌then◌else◌, [], ◌∷◌, Option, none, some, ◌≡◌, refl, sym, ◌∙◌, ap,
  subst, inl, inr, Bool-cases, Option-cases,
}
use multi_paxos_work_in_prog.Common.Classes.{list_beq_iff}
use multi_paxos_work_in_prog.Common.GoMap.{GoMap, lookup, lookup-insert, Distinct, Listing}
use multi_paxos_work_in_prog.Common.Text.{Text}
use multi_paxos_work_in_prog.Network.{Conn}
use multi_paxos_work_in_prog.Network.Client.{
  DistributedCl, conn_to_server, conn_to_each, conn_to_servers,
}

module _ (dials : Text → Option Conn) (own : Text) where
  -- What a round makes of the entry of a host.
  abbrev pub after_round : Text → Option (Option Conn) → Option (Option Conn)
  after_round host none = none
  after_round host (some (some conn)) = some (some conn)
  after_round host (some none) = if host == own then some none else some (dials host)

  server-lookup :
      (c : DistributedCl) (h : Text) (v : Option Conn) (host : Text)
      → lookup h c.server_ip_addr_conns ≡ some v
      → lookup host (conn_to_server dials own c h v).0.server_ip_addr_conns
        ≡ (if h == host then after_round host (some v) else lookup host c.server_ip_addr_conns)
  unfolding conn_to_server
  server-lookup c h (some conn) host e = elim (Bool-cases (h == host)) [
    | inr other ↦ rw other refl
    | inl same ↦
        rw same (ap (λ k. lookup k c.server_ip_addr_conns) (sym ((list_beq_iff h host).0 same)) ∙ e)
  ]
  server-lookup c h none host e = elim (Bool-cases (h == own)) [
    | inl mine ↦ rw mine (elim (Bool-cases (h == host)) [
      | inr other ↦ rw other refl
      | inl same ↦ rw same (
          at_host same (λ k. lookup k c.server_ip_addr_conns ≡ after_round k (some none))
            (rw mine e))
    ])
    | inr peer ↦ rw peer (elim (Option-cases (dials h)) [
      | inl down ↦ rw down (elim (Bool-cases (h == host)) [
        | inr other ↦ rw other refl
        | inl same ↦ rw same (
            at_host same (λ k. lookup k c.server_ip_addr_conns ≡ after_round k (some none))
              (rw (peer, down) e))
      ])
      | inr (made, up) ↦ rw up (
          lookup-insert h host (some made) c.server_ip_addr_conns ∙ elim (Bool-cases (h == host)) [
            | inr other ↦ rw other refl
            | inl same ↦ rw same (
                at_host same (λ k. some (some made) ≡ after_round k (some none))
                  (rw (peer, up) refl))
          ])
    ])
  ]
    where
      at_host : (h == host) ≡ true → (P : Text → Type 0) → P h → P host
      at_host same P x = subst P ((list_beq_iff h host).0 same) x

  -- The entry of a host after the loop over entries that hold `o` for it, if it was `old` before.
  abbrev pub entry_after : Text → Option (Option Conn) → Option (Option Conn) → Option (Option Conn)
  entry_after host old none = old
  entry_after host old (some v) = after_round host (some v)

  each-lookup :
      (c : DistributedCl) (l : GoMap Text (Option Conn)) (host : Text)
      → Distinct l
      → ((k : Text) (v : Option Conn)
          → lookup k l ≡ some v
          → lookup k c.server_ip_addr_conns ≡ some v)
      → lookup host (conn_to_each dials own c l).0.server_ip_addr_conns
        ≡ entry_after host (lookup host c.server_ip_addr_conns) (lookup host l)
  unfolding conn_to_each lookup
  each-lookup c [] host d agree = refl
  each-lookup c ((h, v) ∷ l) host d agree =
      each-lookup (conn_to_server dials own c h v).0 l host d.1 still
      ∙ elim (Bool-cases (h == host)) [
        | inr other ↦
            rw other (ap (λ o. entry_after host o (lookup host l)) (visited host ∙ rw other refl))
        | inl same ↦
            let gone : lookup host l ≡ none =
              subst (λ k. lookup k l ≡ none) ((list_beq_iff h host).0 same) d.0 in
            rw (same, gone) (visited host ∙ rw same refl)
      ]
    where
      held : lookup h c.server_ip_addr_conns ≡ some v
      held =
          let own_key : (h == h) ≡ true = (list_beq_iff h h).1 refl in agree h v (rw own_key refl)

      visited :
          (k : Text)
          → lookup k (conn_to_server dials own c h v).0.server_ip_addr_conns
            ≡ (if h == k then after_round k (some v) else lookup k c.server_ip_addr_conns)
      visited k = server-lookup c h v k held

      still :
          (k : Text) (w : Option Conn)
          → lookup k l ≡ some w
          → lookup k (conn_to_server dials own c h v).0.server_ip_addr_conns ≡ some w
      still k w m = elim (Bool-cases (h == k)) [
        | inr other ↦ visited k ∙ rw other (agree k w (rw other m))
        | inl same ↦
            let gone : lookup k l ≡ none =
              subst (λ x. lookup x l ≡ none) ((list_beq_iff h k).0 same) d.0 in
            absurd (cc (gone, m))
      ]

-- After a round, whatever the order of the visit: a connection that was there is still there, each
-- host without one has what the dial to it gave, and the node's own entry stays without one.
pub conn_to_servers-lookup :
    (range : GoMap Text (Option Conn) → GoMap Text (Option Conn)) (dials : Text → Option Conn)
    (own : Text) (c : DistributedCl) (host : Text)
    → Listing c.server_ip_addr_conns (range c.server_ip_addr_conns)
    → lookup host (conn_to_servers range dials own c).0.server_ip_addr_conns
      ≡ after_round dials own host (lookup host c.server_ip_addr_conns)
unfolding conn_to_servers
conn_to_servers-lookup range dials own c host visits =
    each-lookup dials own c (range c.server_ip_addr_conns) host visits.distinct
      (λ k v e. sym (visits.same k) ∙ e)
    ∙ ap (entry_after dials own host (lookup host c.server_ip_addr_conns)) (visits.same host)
    ∙ known (lookup host c.server_ip_addr_conns)
  where
    known :
        (o : Option (Option Conn)) → entry_after dials own host o o ≡ after_round dials own host o
    known none = refl
    known (some v) = refl
