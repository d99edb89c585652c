-- ===== src/Tests/Clients.antt =====
-- A server, one client that connects, another with its UUID, and the removal of the first.
use db_query_optimizer.Common.{Bool, true, false, none, some, [], ◌∷◌, ◌≡◌, ◌⊎◌, refl}
use db_query_optimizer.Common.Text.{bytes}
use db_query_optimizer.Server.{
  has_clients, client_count, remove_client_info, find_in_map, find_handle, erase_client,
  without_client, without_uuid, ClientInfo, Registry, clients_at, is_among, remove_client, send_to,
  clear_aborted, connect, resolve_uuid, add_client, with_info, with_clients, uuid_at,
}
use db_query_optimizer.Server.Connected.{Agrees}
use db_query_optimizer.Server.Swept.{Thinned}
use db_query_optimizer.Server.Cleared.{EveryActive, clear_aborted-Thinned}
use db_query_optimizer.Server.Sent.{HasLost, send_to-Agrees}
use db_query_optimizer.Server.Reroute.{reroute_to_any_of_type, reroute_from, find_and_send}
use db_query_optimizer.Server.Joined.{IsAdded, connect-Agrees}
use db_query_optimizer.Server.Left.{remove_client-Agrees}

abbrev no_client : Registry
no_client = record { heap = λ _. none; client_map = []; client_uuid_map = [] }

no_client-Agrees : Agrees no_client
unfolding clients_at is_among uuid_at
no_client-Agrees = record { listed = λ t p h. cc; found = λ u p h. cc; once = λ t. tt; sorted = tt }

abbrev planner : ClientInfo
planner = record {
  handle = 5;
  unit_type = 1;
  uuid = 77;
  pretty_name = bytes "planner";
  abort = false;
}

abbrev with_planner : Registry
with_planner = connect 100 planner [] no_client

with_planner-Agrees : Agrees with_planner
with_planner-Agrees = (connect-Agrees 100 planner [] no_client no_client-Agrees refl).0

abbrev engine : ClientInfo
engine = record {
  handle = 6;
  unit_type = 2;
  uuid = 77;
  pretty_name = bytes "engine";
  abort = false;
}

new_address : with_planner.heap 200 ≡ none
unfolding connect resolve_uuid add_client with_info uuid_at
new_address = refl

connect-Agrees_example :
    Agrees (connect 200 engine (some 78 ∷ []) with_planner)
    × ((connect 200 engine (some 78 ∷ []) with_planner ≡ with_planner)
        ⊎ IsAdded 200 engine with_planner (connect 200 engine (some 78 ∷ []) with_planner))
connect-Agrees_example =
    connect-Agrees 200 engine (some 78 ∷ []) with_planner with_planner-Agrees new_address

remove_client-Agrees_example :
    (s' : Registry) × (remove_client 1 100 with_planner ≡ some s')
    × Agrees s'
    × (is_among 100 (clients_at s'.client_map 1) ≡ false)
remove_client-Agrees_example = remove_client-Agrees 1 100 with_planner with_planner-Agrees

clear_aborted-Thinned_example :
    (s' : Registry) × (clear_aborted with_planner ≡ some s')
    × Thinned with_planner s'
    × EveryActive s' s'.client_map
clear_aborted-Thinned_example = clear_aborted-Thinned with_planner with_planner-Agrees

planner_listed : is_among 100 (clients_at with_planner.client_map 1) ≡ true
unfolding connect resolve_uuid add_client clients_at with_clients is_among uuid_at
planner_listed = refl

planner_alive : with_planner.heap 100 ≡ some planner
unfolding connect resolve_uuid add_client with_info uuid_at
planner_alive = refl

send_to-Agrees_example :
    (result : Bool × Registry) × (send_to false 100 with_planner ≡ some result)
    × Agrees result.1
    × (((result ≡ (true, with_planner)) × (planner.abort ≡ false) × (false ≡ true))
        ⊎ ((result.0 ≡ false) × HasLost planner.handle with_planner result.1))
send_to-Agrees_example =
    send_to-Agrees false 1 100 planner with_planner with_planner-Agrees planner_listed planner_alive

-- With two clients of a type, of which the first does not answer and the second is the original
-- recipient, rerouting reads past the end of the vector.
abbrev two_planners : Registry
two_planners = connect 200 (record planner { handle = 6; uuid = 78 }) [] with_planner

reroute_past_end : reroute_to_any_of_type 1 78 (λ handle. false) 0 two_planners ≡ none
unfolding reroute_to_any_of_type reroute_from find_and_send has_clients client_count send_to
    remove_client_info find_in_map find_handle remove_client erase_client without_client
    without_uuid connect resolve_uuid add_client clients_at with_clients is_among with_info uuid_at
reroute_past_end = refl
