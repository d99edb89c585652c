-- ===== src/Server/Sent.antt =====
-- About `sendTo`, and the search for a client by its handle.
use db_query_optimizer.Common.{
  ℕ, Bool, true, false, ◌||◌, not, Option, none, some, List, [], ◌∷◌, ◌==◌, ◌≡◌, ◌⊎◌, refl, arith,
  sym, subst, Bool-cases, inl, inr, ==_iff, All,
}
use db_query_optimizer.Server.{
  ClientPtr, ClientInfo, Registry, clients_at, is_among, find_handle, find_in_map,
  remove_client_info, send_to,
}
use db_query_optimizer.Server.Connected.{Agrees}
use db_query_optimizer.Server.Left.{remove_client-Agrees}
use db_query_optimizer.Server.Swept.{IsListed}
use db_query_optimizer.Server.Cleared.{AllMatch, all_match}

-- The client is alive and has the handle, or has another one.
abbrev pub HasHandle : Registry → ℕ → ClientPtr → Type 0
HasHandle s handle p =
    (info : ClientInfo) × (s.heap p ≡ some info) × ((info.handle == handle) ≡ true)

abbrev OtherHandle : Registry → ℕ → ClientPtr → Type 0
OtherHandle s handle p =
    (info : ClientInfo) × (s.heap p ≡ some info) × ((info.handle == handle) ≡ false)

abbrev InVector : Registry → ℕ → List ClientPtr → Option (Option ClientPtr) → Type 0
InVector s handle ps r =
    ((r ≡ some none) × All (OtherHandle s handle) ps)
    ⊎ ((q : ClientPtr) × (r ≡ some (some q)) × (is_among q ps ≡ true) × HasHandle s handle q)

find_handle_lem :
    (s : Registry) (handle : ℕ) (ps : List ClientPtr)
    → ((q : ClientPtr) → is_among q ps ≡ true → (info : ClientInfo) × (s.heap q ≡ some info))
    → InVector s handle ps (find_handle s.heap handle ps)
unfolding find_handle is_among
find_handle_lem s handle [] h = inl (refl, tt)
find_handle_lem s handle (p ∷ ps) h =
    let (info, e) = h p (ground arith) in
    elim (Bool-cases (info.handle == handle)) [
      | inl n ↦ inr (p, rw (find_handle, e, n) refl, ground arith, (info, e, n))
      | inr n ↦ elim (find_handle_lem s handle ps (λ q k. h q (ground (arith, k)))) [
        | inl (r, o) ↦ inl (rw (find_handle, e, n) r, ((info, e, n), o))
        | inr (q, r, k, g) ↦ inr (q, rw (find_handle, e, n) r, ground (arith, k), g)
      ]
    ]

abbrev NotIn : Registry → ℕ → List (ℕ × List ClientPtr) → Type 0
NotIn s handle [] = Unit
NotIn s handle ((t, ps) ∷ rest) = All (OtherHandle s handle) ps × NotIn s handle rest

abbrev InMap : Registry → ℕ → List (ℕ × List ClientPtr) → Option (Option (ℕ × ClientPtr)) → Type 0
InMap s handle entries r =
    ((r ≡ some none) × NotIn s handle entries)
    ⊎ ((t : ℕ) × (q : ClientPtr) × (r ≡ some (some (t, q))) × IsListed s t q × HasHandle s handle q)

find_in_map_lem :
    (s : Registry) (handle : ℕ) (entries : List (ℕ × List ClientPtr))
    → Agrees s
    → AllMatch s.client_map entries
    → InMap s handle entries (find_in_map s.heap handle entries)
unfolding find_in_map
find_in_map_lem s handle [] a h = inl (refl, tt)
find_in_map_lem s handle ((t, ps) ∷ rest) a (e, _, h) =
    let listed : (q : ClientPtr) → is_among q ps ≡ true → IsListed s t q =
      λ q k. subst (λ qs. is_among q qs ≡ true) (sym e) k in
    let living : (q : ClientPtr)
        → is_among q ps ≡ true
        → (info : ClientInfo) × (s.heap q ≡ some info) =
      λ q k. let (info, f, _, _) = a.listed t q (listed q k) in (info, f) in
    elim (find_handle_lem s handle ps living) [
      | inr (q, r, k, g) ↦ inr (t, q, rw (find_in_map, r) refl, listed q k, g)
      | inl (r, o) ↦ elim (find_in_map_lem s handle rest a h) [
        | inl (r', o') ↦ inl (rw (find_in_map, r) r', (o, o'))
        | inr (t', q, r', k, g) ↦ inr (t', q, rw (find_in_map, r) r', k, g)
      ]
    ]

other_in_vector :
    (s : Registry) (handle : ℕ) (ps : List ClientPtr) (p : ClientPtr)
    → All (OtherHandle s handle) ps
    → is_among p ps ≡ true
    → OtherHandle s handle p
unfolding is_among
other_in_vector s handle [] p o k = cc
other_in_vector s handle (q ∷ qs) p (h, hs) k = elim (Bool-cases (p == q)) [
  | inl n ↦ subst (OtherHandle s handle) (sym ((==_iff p q).0 n)) h
  | inr n ↦ other_in_vector s handle qs p hs (ground (arith, k, n))
]

other_in_map :
    (s : Registry) (handle t : ℕ) (entries : List (ℕ × List ClientPtr)) (p : ClientPtr)
    → NotIn s handle entries
    → is_among p (clients_at entries t) ≡ true
    → OtherHandle s handle p
unfolding clients_at is_among
other_in_map s handle t [] p o k = cc
other_in_map s handle t ((l, ps) ∷ rest) p (o, os) k = elim (Bool-cases (t == l)) [
  | inl n ↦ other_in_vector s handle ps p o (ground (arith, k, n))
  | inr n ↦ other_in_map s handle t rest p os (ground (arith, k, n))
]

-- A client with the handle was there and is not any more.
abbrev pub HasLost : ℕ → Registry → Registry → Type 0
HasLost handle s s' =
    (t : ℕ) × (q : ClientPtr) × IsListed s t q
    × HasHandle s handle q
    × (is_among q (clients_at s'.client_map t) ≡ false)

removal :
    (t : ℕ) (p : ClientPtr) (info : ClientInfo) (s : Registry)
    → Agrees s
    → IsListed s t p
    → s.heap p ≡ some info
    → (s' : Registry) × (remove_client_info p s ≡ some s') × Agrees s' × HasLost info.handle s s'
unfolding remove_client_info
removal t p info s a here e =
    elim (find_in_map_lem s info.handle s.client_map a (all_match s.client_map a.sorted)) [
      | inl (r, o) ↦
          let (i, f, n) = other_in_map s info.handle t s.client_map p o here in
          absurd (ground (arith, e, f, n))
      | inr (t', q, r, k, g) ↦
          let (s', f, b, gone) = remove_client-Agrees t' q s a in
          (s', rw (remove_client_info, e, r) f, b, (t', q, k, g, gone))
    ]

failed :
    (is_sent : Bool) (p : ClientPtr) (info : ClientInfo) (s s' : Registry)
    → s.heap p ≡ some info
    → (info.abort || not is_sent) ≡ true
    → remove_client_info p s ≡ some s'
    → send_to is_sent p s ≡ some (false, s')
unfolding send_to
failed is_sent p info s s' e n f = ground arith

-- On a registry whose maps agree, sending to a client that the server has reads no deleted data and the
-- maps still agree; either the client is not aborted, the message was sent and nothing has changed,
-- or the send has failed and a client with that handle is removed.
pub send_to-Agrees :
    (is_sent : Bool) (t : ℕ) (p : ClientPtr) (info : ClientInfo) (s : Registry)
    → Agrees s
    → IsListed s t p
    → s.heap p ≡ some info
    → (result : Bool × Registry) × (send_to is_sent p s ≡ some result)
      × Agrees result.1
      × (((result ≡ (true, s)) × (info.abort ≡ false) × (is_sent ≡ true))
          ⊎ ((result.0 ≡ false) × HasLost info.handle s result.1))
unfolding send_to
send_to-Agrees is_sent t p info s a here e = elim (Bool-cases (info.abort || not is_sent)) [
  | inr n ↦
      ((true, s), rw (send_to, e, n) refl, a, inl (refl, ground (arith, n), ground (arith, n)))
  | inl n ↦
      let (s', f, b, lost) = removal t p info s a here e in
      ((false, s'), failed is_sent p info s s' e n f, b, inr (refl, lost))
]
