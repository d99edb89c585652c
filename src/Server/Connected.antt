-- ===== src/Server/Connected.antt =====
-- What it is for the two maps of the server to agree, and lemmas on its maps and vectors.
use db_query_optimizer.Common.{
  ltb, ◌<◌, sym, subst, ==_iff, ℕ, true, false, ◌&&◌, ◌||◌, not, none, some, List, [], ◌∷◌, ◌++◌,
  ◌==◌, if◌then◌else◌, ◌≡◌, refl, arith, Bool-cases, inl, inr,
}
use db_query_optimizer.Server.{
  ClientPtr, ClientInfo, Registry, clients_at, with_clients, uuid_at, without_uuid, is_among,
  without_client,
}

-- No client is in the list twice.
abbrev pub Once : List ClientPtr → Type 0
Once [] = Unit
Once (p ∷ ps) = (is_among p ps ≡ false) × Once ps

-- The keys of the map of vectors go up.
abbrev pub Above : ℕ → List (ℕ × List ClientPtr) → Type 0
Above k [] = Unit
Above k ((t, ps) ∷ rest) = k < t

abbrev pub IsSorted : List (ℕ × List ClientPtr) → Type 0
IsSorted [] = Unit
IsSorted ((t, ps) ∷ rest) = Above t rest × IsSorted rest

-- The maps agree: a client in the vector of a type is alive, of that type, and found by its UUID; a client
-- found by a UUID is alive, has that UUID, and is in the vector of its type; no vector has a
-- client twice, and the keys of the vectors go up.
pub record Agrees (s : Registry) : Type 0 where
  pub listed :
      (t : ℕ) (p : ClientPtr)
      → is_among p (clients_at s.client_map t) ≡ true
      → (info : ClientInfo) × (s.heap p ≡ some info)
        × (info.unit_type ≡ t)
        × (uuid_at s.client_uuid_map info.uuid ≡ some p)
  pub found :
      (u : ℕ) (p : ClientPtr)
      → uuid_at s.client_uuid_map u ≡ some p
      → (info : ClientInfo) × (s.heap p ≡ some info)
        × (info.uuid ≡ u)
        × (is_among p (clients_at s.client_map info.unit_type) ≡ true)
  pub once : (t : ℕ) → Once (clients_at s.client_map t)
  pub sorted : IsSorted s.client_map

pub clients_at-with_clients :
    (t t' : ℕ) (ps : List ClientPtr) (m : List (ℕ × List ClientPtr))
    → clients_at (with_clients t ps m) t' ≡ (if t' == t then ps else clients_at m t')
unfolding clients_at with_clients
clients_at-with_clients t t' ps [] = ground arith
clients_at-with_clients t t' ps ((k, qs) ∷ rest) =
    ground (arith, clients_at-with_clients t t' ps rest)

pub is_among-append :
    (p q : ClientPtr) (ps : List ClientPtr)
    → is_among p (ps ++ q ∷ []) ≡ (is_among p ps || (p == q))
unfolding is_among
is_among-append p q [] = ground arith
is_among-append p q (r ∷ rs) = ground (arith, is_among-append p q rs)

pub Once-append :
    (p : ClientPtr) (ps : List ClientPtr) → is_among p ps ≡ false → Once ps → Once (ps ++ p ∷ [])
unfolding is_among
Once-append p [] h k = (refl, tt)
Once-append p (q ∷ qs) h (k, ks) =
    (ground (arith, is_among-append q p qs), Once-append p qs (ground arith) ks)

pub is_among-without :
    (p q : ClientPtr) (ps : List ClientPtr)
    → Once ps
    → is_among q (without_client p ps) ≡ (is_among q ps && not (q == p))
unfolding is_among without_client
is_among-without p q [] h = refl
is_among-without p q (r ∷ rs) (h, hs) = ground (arith, is_among-without p q rs hs)

pub Once-without : (p : ClientPtr) (ps : List ClientPtr) → Once ps → Once (without_client p ps)
unfolding is_among without_client
Once-without p [] h = tt
Once-without p (r ∷ rs) (h, hs) = elim (Bool-cases (p == r)) [
  | inl e ↦ rw (without_client, e) hs
  | inr e ↦
      rw (without_client, e) (ground (arith, is_among-without p r rs hs), Once-without p rs hs)
]

pub uuid_at-without :
    (u v : ℕ) (m : List (ℕ × ClientPtr))
    → uuid_at (without_uuid u m) v ≡ (if v == u then none else uuid_at m v)
unfolding uuid_at without_uuid
uuid_at-without u v [] = ground arith
uuid_at-without u v ((k, p) ∷ rest) = ground (arith, uuid_at-without u v rest)

with_clients-Above :
    (k t : ℕ) (ps : List ClientPtr) (m : List (ℕ × List ClientPtr))
    → k < t
    → Above k m
    → Above k (with_clients t ps m)
unfolding with_clients
with_clients-Above k t ps [] h a = h
with_clients-Above k t ps ((l, qs) ∷ rest) h a = elim (Bool-cases (t == l)) [
  | inl e ↦ rw (with_clients, e) h
  | inr e ↦ elim (Bool-cases (ltb t l)) [
    | inl f ↦ rw (with_clients, e, f) h
    | inr f ↦ rw (with_clients, e, f) a
  ]
]

pub with_clients-IsSorted :
    (t : ℕ) (ps : List ClientPtr) (m : List (ℕ × List ClientPtr))
    → IsSorted m
    → IsSorted (with_clients t ps m)
unfolding with_clients
with_clients-IsSorted t ps [] h = (tt, tt)
with_clients-IsSorted t ps ((l, qs) ∷ rest) (h, hs) = elim (Bool-cases (t == l)) [
  | inl e ↦
      let same : t ≡ l = (==_iff t l).0 e in
      rw (with_clients, e) (subst (λ k. Above k rest) (sym same) h, hs)
  | inr e ↦ elim (Bool-cases (ltb t l)) [
    | inl f ↦ rw (with_clients, e, f) (ground (arith, f), (h, hs))
    | inr f ↦
        rw (with_clients, e, f)
          (
            with_clients-Above l t ps rest (ground (arith, e, f)) h,
            with_clients-IsSorted t ps rest hs,
          )
  ]
]
