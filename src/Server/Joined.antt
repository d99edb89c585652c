-- ===== src/Server/Joined.antt =====
-- About a client that connects and the two maps of the server.
use db_query_optimizer.Common.{
  ℕ, true, false, ◌||◌, Option, none, some, List, [], ◌∷◌, ◌++◌, ◌==◌, if◌then◌else◌, ◌≡◌, refl,
  arith, sym, ap, subst, ◌∙◌, Option-cases, Bool-cases, ◌⊎◌, inl, inr, ==_iff,
}
use db_query_optimizer.Server.{
  ClientPtr, ClientInfo, Registry, clients_at, uuid_at, with_info, is_among, get_client_by_uuid,
  resolve_uuid, add_client, connect,
}
use db_query_optimizer.Server.Connected.{
  IsSorted, with_clients-IsSorted, Once, Agrees, clients_at-with_clients, is_among-append,
  Once-append,
}

-- A new client.
module _ (s : Registry) (p : ClientPtr) (info : ClientInfo) (a : Agrees s) (fresh : s.heap p ≡ none)
    (free : uuid_at s.client_uuid_map info.uuid ≡ none) where
  fresh_among : (t : ℕ) → is_among p (clients_at s.client_map t) ≡ false
  fresh_among t = elim (Bool-cases (is_among p (clients_at s.client_map t))) [
    | inr n ↦ n
    | inl n ↦ let (i, e, _, _) = a.listed t p n in absurd (ground (arith, e, fresh))
  ]

  among_after :
      (t : ℕ) (q : ClientPtr)
      → is_among q (clients_at (add_client p info s).client_map t) ≡ (
          if t == info.unit_type
          then is_among q (clients_at s.client_map t) || (q == p)
          else is_among q (clients_at s.client_map t))
  unfolding add_client
  among_after t q = elim (Bool-cases (t == info.unit_type)) [
    | inl e ↦
        let same : t ≡ info.unit_type = (==_iff t info.unit_type).0 e in
        ground (
          arith,
          clients_at-with_clients info.unit_type t
              (clients_at s.client_map info.unit_type ++ p ∷ []) s.client_map,
          is_among-append q p (clients_at s.client_map info.unit_type),
          same,
        )
    | inr e ↦ ground (
      arith,
      clients_at-with_clients info.unit_type t (clients_at s.client_map info.unit_type ++ p ∷ [])
          s.client_map,
    )
  ]

  old_listed :
      (t : ℕ) (q : ClientPtr)
      → (q == p) ≡ false
      → is_among q (clients_at (add_client p info s).client_map t) ≡ true
      → is_among q (clients_at s.client_map t) ≡ true
  old_listed t q n h = ground (arith, among_after t q)

  still_listed :
      (t : ℕ) (q : ClientPtr)
      → is_among q (clients_at s.client_map t) ≡ true
      → is_among q (clients_at (add_client p info s).client_map t) ≡ true
  still_listed t q h = ground (arith, among_after t q)

  other_uuid :
      (u : ℕ) (q : ClientPtr) → uuid_at s.client_uuid_map u ≡ some q → (u == info.uuid) ≡ false
  other_uuid u q h = elim (Bool-cases (u == info.uuid)) [
    | inr n ↦ n
    | inl n ↦
        let same : u ≡ info.uuid = (==_iff u info.uuid).0 n in
        absurd (ground (arith, ap (uuid_at s.client_uuid_map) same, h, free))
  ]

  other_client : (q : ClientPtr) (i : ClientInfo) → s.heap q ≡ some i → (q == p) ≡ false
  other_client q i h = elim (Bool-cases (q == p)) [
    | inr n ↦ n
    | inl n ↦
        let same : q ≡ p = (==_iff q p).0 n in absurd (ground (arith, ap s.heap same, h, fresh))
  ]

  add_listed :
      (t : ℕ) (q : ClientPtr)
      → is_among q (clients_at (add_client p info s).client_map t) ≡ true
      → (i : ClientInfo) × ((add_client p info s).heap q ≡ some i)
        × (i.unit_type ≡ t)
        × (uuid_at (add_client p info s).client_uuid_map i.uuid ≡ some q)
  unfolding add_client with_info uuid_at
  add_listed t q h = elim (Bool-cases (q == p)) [
    | inl e ↦ (
      info,
      ground arith,
      ground (arith, among_after t q, fresh_among t, (==_iff q p).0 e),
      ground arith,
    )
    | inr e ↦
        let (i, ei, ty, ui) = a.listed t q (old_listed t q e h) in
        (i, ground arith, ty, ground (arith, other_uuid i.uuid q ui))
  ]

  add_found :
      (u : ℕ) (q : ClientPtr)
      → uuid_at (add_client p info s).client_uuid_map u ≡ some q
      → (i : ClientInfo) × ((add_client p info s).heap q ≡ some i)
        × (i.uuid ≡ u)
        × (is_among q (clients_at (add_client p info s).client_map i.unit_type) ≡ true)
  unfolding add_client with_info uuid_at
  add_found u q h = elim (Bool-cases (u == info.uuid)) [
    | inl e ↦ (info, ground arith, ground arith, ground (arith, among_after info.unit_type q))
    | inr e ↦
        let old : uuid_at s.client_uuid_map u ≡ some q = ground arith in
        let (i, ei, ui, ti) = a.found u q old in
        (i, ground (arith, other_client q i ei, ei), ui, still_listed i.unit_type q ti)
  ]

  add_client-Once : (t : ℕ) → Once (clients_at (add_client p info s).client_map t)
  unfolding add_client
  add_client-Once t = elim (Bool-cases (t == info.unit_type)) [
    | inl e ↦
        subst Once
          (sym (
            clients_at-with_clients info.unit_type t
              (clients_at s.client_map info.unit_type ++ p ∷ []) s.client_map
            ∙ rw e refl))
          (Once-append p (clients_at s.client_map info.unit_type) (fresh_among info.unit_type)
            (a.once info.unit_type))
    | inr e ↦
        subst Once
          (sym (
            clients_at-with_clients info.unit_type t
              (clients_at s.client_map info.unit_type ++ p ∷ []) s.client_map
            ∙ rw e refl))
          (a.once t)
  ]

  map-IsSorted : IsSorted (add_client p info s).client_map
  unfolding add_client
  map-IsSorted =
      with_clients-IsSorted info.unit_type (clients_at s.client_map info.unit_type ++ p ∷ [])
        s.client_map a.sorted

  add_client-Agrees : Agrees (add_client p info s)
  add_client-Agrees = record {
    listed = add_listed;
    found = add_found;
    once = add_client-Once;
    sorted = map-IsSorted;
  }

own_uuid :
    (s : Registry) (p : ClientPtr) (info : ClientInfo)
    → get_client_by_uuid (add_client p info s) info.uuid ≡ some p
unfolding get_client_by_uuid add_client uuid_at
own_uuid s p info = ground arith

own_vector :
    (s : Registry) (p : ClientPtr) (info : ClientInfo)
    → Agrees s
    → s.heap p ≡ none
    → uuid_at s.client_uuid_map info.uuid ≡ none
    → is_among p (clients_at (add_client p info s).client_map info.unit_type) ≡ true
own_vector s p info a fresh free =
    ground (arith, among_after s p info a fresh free info.unit_type p)

resolve_free :
    (m : List (ℕ × ClientPtr)) (u v : ℕ) (answers : List (Option ℕ))
    → resolve_uuid m u answers ≡ some v
    → uuid_at m v ≡ none
unfolding resolve_uuid
resolve_free m u v [] h = elim (Option-cases (uuid_at m u)) [
  | inl n ↦ ground (arith, n, h)
  | inr (q, n) ↦ absurd (ground (arith, n, h))
]
resolve_free m u v (none ∷ answers) h = elim (Option-cases (uuid_at m u)) [
  | inl n ↦ ground (arith, n, h)
  | inr (q, n) ↦ absurd (ground (arith, n, h))
]
resolve_free m u v (some w ∷ answers) h = elim (Option-cases (uuid_at m u)) [
  | inl n ↦ ground (arith, n, h)
  | inr (q, n) ↦ resolve_free m w v answers (ground (arith, n, h))
]

-- The client was added: under a UUID that no client had, which finds it from now on, and to the vector of
-- its type.
abbrev pub IsAdded : ClientPtr → ClientInfo → Registry → Registry → Type 0
IsAdded p info s s' =
    (u : ℕ) × (get_client_by_uuid s u ≡ none)
    × (get_client_by_uuid s' u ≡ some p)
    × (is_among p (clients_at s'.client_map info.unit_type) ≡ true)

-- When a client connects and its data gets a new address, the maps still agree, whatever UUID it
-- comes with and whatever it answers; it was dropped and nothing has changed, or it was added under a
-- UUID that no other client has.
pub connect-Agrees :
    (p : ClientPtr) (info : ClientInfo) (answers : List (Option ℕ)) (s : Registry)
    → Agrees s
    → s.heap p ≡ none
    → Agrees (connect p info answers s)
      × ((connect p info answers s ≡ s) ⊎ IsAdded p info s (connect p info answers s))
unfolding connect get_client_by_uuid
connect-Agrees p info answers s a fresh =
    elim (Option-cases (resolve_uuid s.client_uuid_map info.uuid answers)) [
      | inl n ↦ rw (connect, n) (a, inl refl)
      | inr (u, n) ↦
          let free = resolve_free s.client_uuid_map info.uuid u answers n in
          let new = record info { uuid = u; abort = false } in
          let agrees = add_client-Agrees s p new a fresh free in
          rw (connect, n) (agrees, inr (u, free, own_uuid s p new, own_vector s p new a fresh free))
    ]
