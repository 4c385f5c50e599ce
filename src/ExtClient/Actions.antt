-- ===== src/ExtClient/Actions.antt =====
-- What the client of lab6/external_client_application does, in numbers.
use multi_paxos_work_in_prog.Common.{
  ℕ, suc, ◌+◌, nat_eq, ◌||◌, Bool, true, false, List, [], ◌∷◌, ◌++◌, ◌≡◌, refl, ap, list_eq, arith,
}
use multi_paxos_work_in_prog.Common.Text.{Text}
use multi_paxos_work_in_prog.ExtClient.{
  Action, dial, encode, close_conn, msg_cl_in, go_handle_incoming, go_conn_to_server, go_send,
  stop_client,
}

-- whether the client is stopped
abbrev pub stops : List Action → Bool
stops [] = false
stops (stop_client ∷ out) = true
stops (dial host ∷ out) = stops out
stops (encode conn msg ∷ out) = stops out
stops (close_conn conn ∷ out) = stops out
stops (msg_cl_in msg ∷ out) = stops out
stops (go_handle_incoming ∷ out) = stops out
stops (go_conn_to_server spawn ∷ out) = stops out
stops (go_send ∷ out) = stops out

pub stops-append : (a b : List Action) → stops (a ++ b) ≡ (stops a || stops b)
stops-append [] b = refl
stops-append (stop_client ∷ a) b = refl
stops-append (dial host ∷ a) b = stops-append a b
stops-append (encode conn msg ∷ a) b = stops-append a b
stops-append (close_conn conn ∷ a) b = stops-append a b
stops-append (msg_cl_in msg ∷ a) b = stops-append a b
stops-append (go_handle_incoming ∷ a) b = stops-append a b
stops-append (go_conn_to_server spawn ∷ a) b = stops-append a b
stops-append (go_send ∷ a) b = stops-append a b

-- the dials among the actions
abbrev pub dials_made : List Action → ℕ
dials_made [] = 0
dials_made (dial host ∷ out) = suc (dials_made out)
dials_made (stop_client ∷ out) = dials_made out
dials_made (encode conn msg ∷ out) = dials_made out
dials_made (close_conn conn ∷ out) = dials_made out
dials_made (msg_cl_in msg ∷ out) = dials_made out
dials_made (go_handle_incoming ∷ out) = dials_made out
dials_made (go_conn_to_server spawn ∷ out) = dials_made out
dials_made (go_send ∷ out) = dials_made out

pub dials_made-append : (a b : List Action) → dials_made (a ++ b) ≡ dials_made a + dials_made b
dials_made-append [] b = omega arith
dials_made-append (dial host ∷ a) b = omega (arith, dials_made-append a b)
dials_made-append (stop_client ∷ a) b = dials_made-append a b
dials_made-append (encode conn msg ∷ a) b = dials_made-append a b
dials_made-append (close_conn conn ∷ a) b = dials_made-append a b
dials_made-append (msg_cl_in msg ∷ a) b = dials_made-append a b
dials_made-append (go_handle_incoming ∷ a) b = dials_made-append a b
dials_made-append (go_conn_to_server spawn ∷ a) b = dials_made-append a b
dials_made-append (go_send ∷ a) b = dials_made-append a b

-- the hosts that are dialled, in the order of the dials
abbrev pub dialled : List Action → List Text
dialled [] = []
dialled (dial host ∷ out) = host ∷ dialled out
dialled (stop_client ∷ out) = dialled out
dialled (encode conn msg ∷ out) = dialled out
dialled (close_conn conn ∷ out) = dialled out
dialled (msg_cl_in msg ∷ out) = dialled out
dialled (go_handle_incoming ∷ out) = dialled out
dialled (go_conn_to_server spawn ∷ out) = dialled out
dialled (go_send ∷ out) = dialled out

pub dialled-append : (a b : List Action) → dialled (a ++ b) ≡ dialled a ++ dialled b
dialled-append [] b = refl
dialled-append (dial host ∷ a) b = ap (λ l. host ∷ l) (dialled-append a b)
dialled-append (stop_client ∷ a) b = dialled-append a b
dialled-append (encode conn msg ∷ a) b = dialled-append a b
dialled-append (close_conn conn ∷ a) b = dialled-append a b
dialled-append (msg_cl_in msg ∷ a) b = dialled-append a b
dialled-append (go_handle_incoming ∷ a) b = dialled-append a b
dialled-append (go_conn_to_server spawn ∷ a) b = dialled-append a b
dialled-append (go_send ∷ a) b = dialled-append a b
