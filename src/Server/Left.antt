-- ===== src/Server/Left.antt =====
-- About a client that is removed and the two maps of the server.
use db_query_optimizer.Common.{
  ℕ, true, false, ◌&&◌, not, none, some, ◌==◌, if◌then◌else◌, ◌≡◌, refl, arith, sym, ap, subst, ◌∙◌,
  Bool-cases, inl, inr, ==_iff,
}
use db_query_optimizer.Server.{
  ClientPtr, ClientInfo, Registry, clients_at, uuid_at, with_info, is_among, without_client,
  erase_client, remove_client,
}
use db_query_optimizer.Server.Connected.{
  IsSorted, with_clients-IsSorted, Once, Agrees, clients_at-with_clients, is_among-without,
  Once-without, uuid_at-without,
}

-- A client that goes.
module _ (s : Registry) (t : ℕ) (p : ClientPtr) (info : ClientInfo) (a : Agrees s)
    (here : is_among p (clients_at s.client_map t) ≡ true) (alive : s.heap p ≡ some info) where
  own_type : info.unit_type ≡ t
  own_type = let (i, e, ty, _) = a.listed t p here in ground (arith, e, alive, ty)

  own_uuid : uuid_at s.client_uuid_map info.uuid ≡ some p
  own_uuid =
      let (i, e, _, u) = a.listed t p here in
      let same : i ≡ info = ground (arith, e, alive) in
      subst (λ j. uuid_at s.client_uuid_map j.uuid ≡ some p) same u

  among_erased :
      (t' : ℕ) (q : ClientPtr)
      → is_among q (clients_at (erase_client t p info s).client_map t') ≡ (
          if t' == t
          then is_among q (clients_at s.client_map t) && not (q == p)
          else is_among q (clients_at s.client_map t'))
  unfolding erase_client
  among_erased t' q = ground (
    arith,
    clients_at-with_clients t t' (without_client p (clients_at s.client_map t)) s.client_map,
    is_among-without p q (clients_at s.client_map t) (a.once t),
  )

  pub was_listed :
      (t' : ℕ) (q : ClientPtr)
      → is_among q (clients_at (erase_client t p info s).client_map t') ≡ true
      → is_among q (clients_at s.client_map t') ≡ true
  was_listed t' q h = elim (Bool-cases (t' == t)) [
    | inl e ↦
        let same : t' ≡ t = (==_iff t' t).0 e in
        subst (λ k. is_among q (clients_at s.client_map k) ≡ true) (sym same)
          (ground (arith, among_erased t' q))
    | inr e ↦ ground (arith, among_erased t' q)
  ]

  -- The vectors that the client is in.
  not_elsewhere : (t' : ℕ) → is_among p (clients_at s.client_map t') ≡ true → t' ≡ t
  not_elsewhere t' h =
      let (i, e, ty, _) = a.listed t' p h in
      let same : i ≡ info = ground (arith, e, alive) in
      sym ty ∙ (ap (λ j. j.unit_type) same ∙ own_type)

  pub not_listed :
      (t' : ℕ) → is_among p (clients_at (erase_client t p info s).client_map t') ≡ false
  not_listed t' =
      elim (Bool-cases (is_among p (clients_at (erase_client t p info s).client_map t'))) [
        | inr n ↦ n
        | inl n ↦
            let same : t' ≡ t = not_elsewhere t' (was_listed t' p n) in
            absurd (ground (arith, among_erased t' p, same, n))
      ]

  pub left_other :
      (t' : ℕ) (q : ClientPtr)
      → is_among q (clients_at (erase_client t p info s).client_map t') ≡ true
      → (q == p) ≡ false
  left_other t' q h = elim (Bool-cases (q == p)) [
    | inr n ↦ n
    | inl n ↦
        let same : q ≡ p = (==_iff q p).0 n in
        absurd (
          ground (
            arith,
            not_listed t',
            ap (λ r. is_among r (clients_at (erase_client t p info s).client_map t')) same,
            h,
          ))
  ]

  uuid_erased :
      (u : ℕ)
      → uuid_at (erase_client t p info s).client_uuid_map u
        ≡ (if u == info.uuid then none else uuid_at s.client_uuid_map u)
  unfolding erase_client
  uuid_erased u = uuid_at-without info.uuid u s.client_uuid_map

  erase_listed :
      (t' : ℕ) (q : ClientPtr)
      → is_among q (clients_at (erase_client t p info s).client_map t') ≡ true
      → (i : ClientInfo) × ((erase_client t p info s).heap q ≡ some i)
        × (i.unit_type ≡ t')
        × (uuid_at (erase_client t p info s).client_uuid_map i.uuid ≡ some q)
  unfolding erase_client with_info
  erase_listed t' q h =
      let (i, ei, ty, ui) = a.listed t' q (was_listed t' q h) in
      (
        i,
        ground (arith, left_other t' q h, ei),
        ty,
        elim (Bool-cases (i.uuid == info.uuid)) [
          | inl e ↦
              let same : i.uuid ≡ info.uuid = (==_iff i.uuid info.uuid).0 e in
              absurd (
                ground
                  (arith, left_other t' q h, ap (uuid_at s.client_uuid_map) same, ui, own_uuid))
          | inr e ↦ ground (arith, uuid_erased i.uuid, ui)
        ],
      )

  pub stays_listed :
      (t' : ℕ) (q : ClientPtr)
      → (q == p) ≡ false
      → is_among q (clients_at s.client_map t') ≡ true
      → is_among q (clients_at (erase_client t p info s).client_map t') ≡ true
  stays_listed t' q n h = elim (Bool-cases (t' == t)) [
    | inl e ↦
        let same : t' ≡ t = (==_iff t' t).0 e in
        let old : is_among q (clients_at s.client_map t) ≡ true =
          subst (λ k. is_among q (clients_at s.client_map k) ≡ true) same h in
        ground (arith, among_erased t' q, old)
    | inr e ↦ ground (arith, among_erased t' q)
  ]

  erase_found :
      (u : ℕ) (q : ClientPtr)
      → uuid_at (erase_client t p info s).client_uuid_map u ≡ some q
      → (i : ClientInfo) × ((erase_client t p info s).heap q ≡ some i)
        × (i.uuid ≡ u)
        × (is_among q (clients_at (erase_client t p info s).client_map i.unit_type) ≡ true)
  unfolding erase_client with_info
  erase_found u q h =
      let other : (u == info.uuid) ≡ false = ground (arith, uuid_erased u, h) in
      let old : uuid_at s.client_uuid_map u ≡ some q = ground (arith, uuid_erased u, h) in
      let (i, ei, ui, ti) = a.found u q old in
      let different : (q == p) ≡ false = elim (Bool-cases (q == p)) [
        | inr n ↦ n
        | inl n ↦
            let same : q ≡ p = (==_iff q p).0 n in
            let same_info : i ≡ info = ground (arith, ap s.heap same, ei, alive) in
            let same_uuid : info.uuid ≡ u = sym (ap (λ j. j.uuid) same_info) ∙ ui in
            absurd (ground (arith, other, same_uuid))
      ] in
      (i, ground (arith, different, ei), ui, stays_listed i.unit_type q different ti)

  erase_client-Once : (t' : ℕ) → Once (clients_at (erase_client t p info s).client_map t')
  unfolding erase_client
  erase_client-Once t' = elim (Bool-cases (t' == t)) [
    | inl e ↦
        subst Once
          (sym (
            clients_at-with_clients t t' (without_client p (clients_at s.client_map t)) s.client_map
            ∙ rw e refl))
          (Once-without p (clients_at s.client_map t) (a.once t))
    | inr e ↦
        subst Once
          (sym (
            clients_at-with_clients t t' (without_client p (clients_at s.client_map t)) s.client_map
            ∙ rw e refl))
          (a.once t')
  ]

  map-IsSorted : IsSorted (erase_client t p info s).client_map
  unfolding erase_client
  map-IsSorted =
      with_clients-IsSorted t (without_client p (clients_at s.client_map t)) s.client_map a.sorted

  pub erase_client-Agrees : Agrees (erase_client t p info s)
  erase_client-Agrees = record {
    listed = erase_listed;
    found = erase_found;
    once = erase_client-Once;
    sorted = map-IsSorted;
  }

-- Removing a client that the server has, or does not have, at that type never reads deleted data; the
-- maps still agree, and the client is not at that type any more.
pub remove_client-Agrees :
    (t : ℕ) (p : ClientPtr) (s : Registry)
    → Agrees s
    → (s' : Registry) × (remove_client t p s ≡ some s')
      × Agrees s'
      × (is_among p (clients_at s'.client_map t) ≡ false)
unfolding remove_client
remove_client-Agrees t p s a = elim (Bool-cases (is_among p (clients_at s.client_map t))) [
  | inr n ↦ (s, rw (remove_client, n) refl, a, n)
  | inl n ↦
      let (info, e, _, _) = a.listed t p n in
      (
        erase_client t p info s,
        rw (remove_client, n, e) refl,
        erase_client-Agrees s t p info a n e,
        not_listed s t p info a n e t,
      )
]
