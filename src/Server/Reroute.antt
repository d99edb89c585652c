-- ===== src/Server/Reroute.antt =====
-- `sendToAnyOfType` and `rerouteToAnyOfType` of src/server/TCPServer.cpp. The random numbers and the
-- results of `send` are arguments; `none` is a fault, or the end of the attempts that are given.
use db_query_optimizer.Common.{
  ℕ, zero, suc, ◌-◌, Bool, true, false, Option, none, some, List, [], ◌∷◌, length, get_elem?, ◌==◌,
  if◌then◌else◌, ◌>>=◌,
}
use db_query_optimizer.Server.{Registry, clients_at, has_clients, send_to}

-- The loop of `sendToAnyOfType`: an attempt is the index that is drawn and whether `send` succeeds.
unfoldable pub try_any : ℕ → List (ℕ × Bool) → Registry → Option (Bool × Registry)
unfolding clients_at send_to
try_any t [] s = if length (clients_at s.client_map t) == 0 then some (false, s) else none
try_any t ((idx, is_sent) ∷ attempts) s =
    let attempt =
      get_elem? (clients_at s.client_map t) idx >>= λ client. send_to is_sent client s in
    if length (clients_at s.client_map t) == 0
    then some (false, s)
    else attempt >>= λ r. elim r.0 [ true ↦ some (true, r.1) | false ↦ try_any t attempts r.1 ]

-- `sendToAnyOfType`
unfoldable pub send_to_any_of_type : ℕ → List (ℕ × Bool) → Registry → Option (Bool × Registry)
unfolding has_clients try_any
send_to_any_of_type t attempts s =
    let tried = try_any t attempts s in if has_clients s then tried else some (false, s)

-- The loop of `find_and_send` over `count` indices from `i`: the vector is read anew each time, since
-- `send_to` erases from it.
unfoldable pub find_and_send : ℕ → ℕ → (ℕ → Bool) → ℕ → ℕ → Registry → Option (Bool × Registry)
unfolding clients_at send_to
find_and_send t original_uuid is_sent zero i s = some (false, s)
find_and_send t original_uuid is_sent (suc count) i s = do
  client ← get_elem? (clients_at s.client_map t) i
  info ← s.heap client
  r ← if info.uuid == original_uuid then some (false, s) else send_to (is_sent info.handle) client s
  elim r.0 [
    | true ↦ some (true, r.1)
    | false ↦ find_and_send t original_uuid is_sent count (suc i) r.1
  ]

-- Both calls of `find_and_send`, from the index that is drawn to the end, and from the start.
unfoldable pub reroute_from : ℕ → ℕ → (ℕ → Bool) → ℕ → Registry → Option (Bool × Registry)
unfolding find_and_send
reroute_from t original_uuid is_sent idx s =
    find_and_send t original_uuid is_sent (length (clients_at s.client_map t) - idx) idx s >>= λ r.
    elim r.0 [ true ↦ some (true, r.1) | false ↦ find_and_send t original_uuid is_sent idx 0 r.1 ]

-- `rerouteToAnyOfType`
unfoldable pub reroute_to_any_of_type : ℕ → ℕ → (ℕ → Bool) → ℕ → Registry → Option (Bool × Registry)
unfolding has_clients clients_at reroute_from
reroute_to_any_of_type t original_uuid is_sent idx s =
    let rerouted = reroute_from t original_uuid is_sent idx s in
    if has_clients s
    then (if length (clients_at s.client_map t) == 0 then some (false, s) else rerouted)
    else some (false, s)
