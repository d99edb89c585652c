-- ===== src/Server.antt =====
-- The registry of connected clients of src/server/TCPServer.cpp. A client is a pointer into the heap;
-- `none` is a fault: a client that was deleted is read. A unit type is its number on the wire,
-- since the source casts whatever number arrives. The sockets are left out: what a `send` returns, and
-- what a client answers, are arguments. The output on the console is left out.
pub mod Connected
pub mod Joined
pub mod Left
pub mod Swept
pub mod Cleared
pub mod Sent
pub mod Reroute
use db_query_optimizer.Common.{
  ℕ, ◌+◌, ◌≤◌, Bool, true, false, ◌||◌, not, Option, none, some, List, [], ◌∷◌, ◌++◌, map, length,
  ltb, ◌==◌, if◌then◌else◌, ◌>>=◌,
}
use db_query_optimizer.Common.Text.{Text, bytes}

abbrev pub ClientPtr : Type 0
ClientPtr = ℕ

pub record ClientInfo : Type 0 where
  pub handle : ℕ
  pub unit_type : ℕ
  pub uuid : ℕ
  pub pretty_name : Text
  pub abort : Bool

-- `clientMap` by its keys in their order, and `clientUuidMap`.
pub record Registry : Type 0 where
  pub heap : ClientPtr → Option ClientInfo
  pub client_map : List (ℕ × List ClientPtr)
  pub client_uuid_map : List (ℕ × ClientPtr)

-- The clients at a key: none where the key is not there.
unfoldable pub clients_at : List (ℕ × List ClientPtr) → ℕ → List ClientPtr
clients_at [] t = []
clients_at ((k, ps) ∷ rest) t = if t == k then ps else clients_at rest t

-- The map with the clients at a key replaced; a new key goes to its place.
unfoldable pub with_clients :
    ℕ → List ClientPtr → List (ℕ × List ClientPtr) → List (ℕ × List ClientPtr)
with_clients t ps [] = (t, ps) ∷ []
with_clients t ps ((k, qs) ∷ rest) =
    let later = with_clients t ps rest in
    if t == k then (t, ps) ∷ rest else if ltb t k then (t, ps) ∷ (k, qs) ∷ rest else (k, qs) ∷ later

unfoldable pub uuid_at : List (ℕ × ClientPtr) → ℕ → Option ClientPtr
uuid_at [] u = none
uuid_at ((k, p) ∷ rest) u = if u == k then some p else uuid_at rest u

-- `clientUuidMap.erase(uuid)`
unfoldable pub without_uuid : ℕ → List (ℕ × ClientPtr) → List (ℕ × ClientPtr)
without_uuid u [] = []
without_uuid u ((k, p) ∷ rest) =
    let later = without_uuid u rest in if u == k then later else (k, p) ∷ later

-- `new ClientInfo()` at an address, and `delete`.
unfoldable pub with_info :
    (ClientPtr → Option ClientInfo) → ClientPtr → Option ClientInfo → ClientPtr → Option ClientInfo
with_info heap p info q = if q == p then info else heap q

-- `cl_vec.erase(std::find(cl_vec.begin(), cl_vec.end(), info))`
unfoldable pub is_among : ClientPtr → List ClientPtr → Bool
is_among p [] = false
is_among p (q ∷ qs) = (p == q) || is_among p qs

unfoldable pub without_client : ClientPtr → List ClientPtr → List ClientPtr
without_client p [] = []
without_client p (q ∷ qs) = let later = without_client p qs in if p == q then qs else q ∷ later

-- `hasClients`
unfoldable pub client_count : List (ℕ × List ClientPtr) → ℕ
client_count [] = 0
client_count ((k, ps) ∷ rest) = length ps + client_count rest

unfoldable pub has_clients : Registry → Bool
unfolding client_count
has_clients s = ltb 0 (client_count s.client_map)

-- `getClientByUuid`
unfoldable pub get_client_by_uuid : Registry → ℕ → Option ClientPtr
unfolding uuid_at
get_client_by_uuid s uuid = uuid_at s.client_uuid_map uuid

-- The body of `removeClient(type, info)`, for a client that is in the vector.
unfoldable pub erase_client : ℕ → ClientPtr → ClientInfo → Registry → Registry
unfolding clients_at with_clients without_uuid with_info without_client
erase_client t p info s = record {
  heap = with_info s.heap p none;
  client_map = with_clients t (without_client p (clients_at s.client_map t)) s.client_map;
  client_uuid_map = without_uuid info.uuid s.client_uuid_map;
}

-- `removeClient(type, info)`. The empty vector that `clientMap[type]` inserts for a type without one is
-- not: `clients_at` reads the same.
unfoldable pub remove_client : ℕ → ClientPtr → Registry → Option Registry
unfolding clients_at is_among erase_client
remove_client t p s =
    let erased = s.heap p >>= λ info. some (erase_client t p info s) in
    if is_among p (clients_at s.client_map t) then erased else some s

-- The loops of `removeClient(info)`: the first client with the handle.
unfoldable pub find_handle :
    (ClientPtr → Option ClientInfo) → ℕ → List ClientPtr → Option (Option ClientPtr)
find_handle heap handle [] = some none
find_handle heap handle (p ∷ ps) =
    let later = find_handle heap handle ps in
    heap p >>= λ info. if info.handle == handle then some (some p) else later

unfoldable pub find_in_map :
    (ClientPtr → Option ClientInfo)
    → ℕ
    → List (ℕ × List ClientPtr)
    → Option (Option (ℕ × ClientPtr))
unfolding find_handle
find_in_map heap handle [] = some none
find_in_map heap handle ((t, ps) ∷ rest) =
    let later = find_in_map heap handle rest in
    find_handle heap handle ps >>= λ r. elim r [ some p ↦ some (some (t, p)) | none ↦ later ]

-- `removeClient(info)`
unfoldable pub remove_client_info : ClientPtr → Registry → Option Registry
unfolding find_in_map remove_client
remove_client_info p s = do
  info ← s.heap p
  found ← find_in_map s.heap info.handle s.client_map
  elim found [ none ↦ some s | some tp ↦ remove_client tp.0 tp.1 s ]

-- `sendTo`: `is_sent` is whether `send` returns no negative number.
unfoldable pub send_to : Bool → ClientPtr → Registry → Option (Bool × Registry)
unfolding remove_client_info
send_to is_sent p s = s.heap p >>= λ info.
    if info.abort || not is_sent
    then (remove_client_info p s >>= λ s'. some (false, s'))
    else some (true, s)

-- The loop of `clear_aborted` over the clients of a type: a removal changes nothing before or behind.
unfoldable pub sweep : ℕ → List ClientPtr → Registry → Option Registry
unfolding remove_client
sweep t [] s = some s
sweep t (p ∷ ps) s =
    s.heap p >>= λ info. (if info.abort then remove_client t p s else some s) >>= sweep t ps

-- The loop over the types: a removal leaves the keys as they are.
unfoldable pub sweep_all : List (ℕ × List ClientPtr) → Registry → Option Registry
unfolding sweep
sweep_all [] s = some s
sweep_all ((t, ps) ∷ rest) s = sweep t ps s >>= sweep_all rest

-- `clear_aborted`
unfoldable pub clear_aborted : Registry → Option Registry
unfolding sweep_all
clear_aborted s = sweep_all s.client_map s

-- The name and the UUID of each client.
unfoldable pub names_of :
    (ClientPtr → Option ClientInfo) → List ClientPtr → Option (List (Text × ℕ))
names_of heap [] = some []
names_of heap (p ∷ ps) = do
  info ← heap p
  rest ← names_of heap ps
  some ((info.pretty_name, info.uuid) ∷ rest)

unfoldable pub all_clients : List (ℕ × List ClientPtr) → List ClientPtr
all_clients [] = []
all_clients ((t, ps) ∷ rest) = ps ++ all_clients rest

unfoldable pub names_for : ℕ → Registry → Option (List (Text × ℕ) × Registry)
unfolding names_of all_clients clients_at
names_for t s = do
  names ← names_of s.heap (if t == 0 then all_clients s.client_map else clients_at s.client_map t)
  some (names, s)

-- `getUuidForUnitType`: type 0 is `Undefined`, and asks for all clients.
unfoldable pub get_uuid_for_unit_type : ℕ → Registry → Option (List (Text × ℕ) × Registry)
unfolding has_clients clear_aborted names_for
get_uuid_for_unit_type t s =
    let listed = clear_aborted s >>= names_for t in if has_clients s then listed else some ([], s)

-- The loop of the connect callback that asks a client for another UUID as long as another client has
-- its: an answer is `none` where a message is not sent, not received or is not the one asked for.
unfoldable pub resolve_uuid : List (ℕ × ClientPtr) → ℕ → List (Option ℕ) → Option ℕ
unfolding uuid_at
resolve_uuid uuids uuid [] = elim (uuid_at uuids uuid) [ none ↦ some uuid | some _ ↦ none ]
resolve_uuid uuids uuid (none ∷ answers) = elim (uuid_at uuids uuid) [
  | none ↦ some uuid
  | some _ ↦ none
]
resolve_uuid uuids uuid (some next ∷ answers) =
    let later = resolve_uuid uuids next answers in
    elim (uuid_at uuids uuid) [ none ↦ some uuid | some _ ↦ later ]

-- The registration, with the client at the address `p`.
unfoldable pub add_client : ClientPtr → ClientInfo → Registry → Registry
unfolding clients_at with_clients with_info
add_client p info s = record {
  heap = with_info s.heap p (some info);
  client_map =
      with_clients info.unit_type (clients_at s.client_map info.unit_type ++ p ∷ []) s.client_map;
  client_uuid_map = (info.uuid, p) ∷ s.client_uuid_map;
}

-- The connect callback, from the client's description on. A client that gives no UUID of its own is
-- dropped.
unfoldable pub connect : ClientPtr → ClientInfo → List (Option ℕ) → Registry → Registry
unfolding resolve_uuid add_client
connect p info answers s = elim (resolve_uuid s.client_uuid_map info.uuid answers) [
  | none ↦ s
  | some uuid ↦ add_client p (record info { uuid = uuid; abort = false }) s
]

-- `unitTypeToString`
unfoldable pub unit_type_to_string : ℕ → Text
unit_type_to_string t =
    if t == 0
    then bytes "Undefined"
    else if t == 1
    then bytes "QueryPlaner"
    else if t == 2
    then bytes "ComputeUnit"
    else if t == 3
    then bytes "MemoryUnit"
    else if t == 4
    then bytes "MetaUnit"
    else if t == 5
    then bytes "MonitorUnit"
    else if t == 6
    then bytes "DatabaseUnit"
    else bytes "Unknown unit type"
