-- ===== src/Server/Swept.antt =====
-- About `clear_aborted`: the clients of one type.
use db_query_optimizer.Common.{
  sym, subst, ==_iff, ℕ, true, false, some, List, [], ◌∷◌, ◌==◌, ◌≡◌, refl, arith, ap, ◌∙◌,
  Bool-cases, inl, inr,
}
use db_query_optimizer.Server.{
  ClientPtr, ClientInfo, Registry, clients_at, is_among, without_client, with_info, erase_client,
  remove_client, sweep,
}
use db_query_optimizer.Server.Connected.{Once, Agrees, clients_at-with_clients}
use db_query_optimizer.Server.Left.{
  was_listed, not_listed, stays_listed, left_other, erase_client-Agrees,
}

abbrev pub IsListed : Registry → ℕ → ClientPtr → Type 0
IsListed s t p = is_among p (clients_at s.client_map t) ≡ true

-- From one registry to the next: clients only leave, those that stay are unchanged, and a client that is
-- not aborted stays.
pub record Thinned (s s' : Registry) : Type 0 where
  pub agrees : Agrees s'
  pub fewer : (t : ℕ) (p : ClientPtr) → IsListed s' t p → IsListed s t p × (s'.heap p ≡ s.heap p)
  pub kept :
      (t : ℕ) (p : ClientPtr) (info : ClientInfo)
      → IsListed s t p
      → s.heap p ≡ some info
      → info.abort ≡ false
      → IsListed s' t p × (s'.heap p ≡ some info)

pub self-Thinned : (s : Registry) → Agrees s → Thinned s s
self-Thinned s a = record {
  agrees = a;
  fewer = λ t p h. (h, refl);
  kept = λ t p info h e _. (h, e);
}

pub then-Thinned : (a b c : Registry) → Thinned a b → Thinned b c → Thinned a c
then-Thinned a b c x y = record {
  agrees = y.agrees;
  fewer = λ t p h. let (h', e) = y.fewer t p h in let (h'', e') = x.fewer t p h' in (h'', e ∙ e');
  kept = λ t p info h e n. let (h', e') = x.kept t p info h e n in y.kept t p info h' e' n;
}

module _ (s : Registry) (t : ℕ) (p : ClientPtr) (info : ClientInfo) (a : Agrees s)
    (here : IsListed s t p) (alive : s.heap p ≡ some info) where
  same_heap : (q : ClientPtr) → (q == p) ≡ false → (erase_client t p info s).heap q ≡ s.heap q
  unfolding erase_client with_info
  same_heap q n = ground (arith, n)

  not_itself :
      (q : ClientPtr) (i : ClientInfo)
      → info.abort ≡ true
      → s.heap q ≡ some i
      → i.abort ≡ false
      → (q == p) ≡ false
  not_itself q i aborted e n = elim (Bool-cases (q == p)) [
    | inr d ↦ d
    | inl d ↦
        let same : q ≡ p = (==_iff q p).0 d in
        let same_info : i ≡ info = ground (arith, ap s.heap same, e, alive) in
        absurd (ground (arith, ap (λ j. j.abort) same_info, n, aborted))
  ]

  erase-Thinned : info.abort ≡ true → Thinned s (erase_client t p info s)
  erase-Thinned aborted = record {
    agrees = erase_client-Agrees s t p info a here alive;
    fewer = λ t' q h. (
      was_listed s t p info a here alive t' q h,
      same_heap q (left_other s t p info a here alive t' q h),
    );
    kept = λ t' q i h e n.
        let other = not_itself q i aborted e n in
        (stays_listed s t p info a here alive t' q other h, same_heap q other ∙ e);
  }

  other_type :
      (t' : ℕ)
      → (t' == t) ≡ false
      → clients_at (erase_client t p info s).client_map t' ≡ clients_at s.client_map t'
  unfolding erase_client
  other_type t' n = ground (
    arith,
    clients_at-with_clients t t' (without_client p (clients_at s.client_map t)) s.client_map,
    n,
  )

-- A client that is alive and not aborted.
abbrev pub IsActive : Registry → ClientPtr → Type 0
IsActive s p = (info : ClientInfo) × (s.heap p ≡ some info) × (info.abort ≡ false)

abbrev pub AllListed : Registry → ℕ → List ClientPtr → Type 0
AllListed s t [] = Unit
AllListed s t (p ∷ ps) = IsListed s t p × AllListed s t ps

-- What a sweep of some clients of a type comes to.
pub record Swept (s : Registry) (t : ℕ) (ps : List ClientPtr) : Type 0 where
  pub result : Registry
  pub runs : sweep t ps s ≡ some result
  pub thinned : Thinned s result
  pub others :
      (t' : ℕ) → (t' == t) ≡ false → clients_at result.client_map t' ≡ clients_at s.client_map t'
  pub active : (p : ClientPtr) → is_among p ps ≡ true → IsListed result t p → IsActive result p

rest_listed :
    (s : Registry) (t : ℕ) (p : ClientPtr) (info : ClientInfo) (a : Agrees s)
    (here : IsListed s t p) (alive : s.heap p ≡ some info) (ps : List ClientPtr)
    → is_among p ps ≡ false
    → AllListed s t ps
    → AllListed (erase_client t p info s) t ps
unfolding is_among
rest_listed s t p info a here alive [] n h = tt
rest_listed s t p info a here alive (q ∷ qs) n (h, hs) = (
  stays_listed s t p info a here alive t q (ground (arith, n)) h,
  rest_listed s t p info a here alive qs (ground (arith, n)) hs,
)

removed :
    (s : Registry) (t : ℕ) (p : ClientPtr) (info : ClientInfo)
    → IsListed s t p
    → s.heap p ≡ some info
    → remove_client t p s ≡ some (erase_client t p info s)
unfolding remove_client
removed s t p info here alive = rw (remove_client, here, alive) refl

first_aborted :
    (t : ℕ) (p : ClientPtr) (ps : List ClientPtr) (s : Registry) (info : ClientInfo)
    (s1 s2 : Registry)
    → s.heap p ≡ some info
    → info.abort ≡ true
    → remove_client t p s ≡ some s1
    → sweep t ps s1 ≡ some s2
    → sweep t (p ∷ ps) s ≡ some s2
unfolding sweep
first_aborted t p ps s info s1 s2 alive aborted r h = ground arith

first_active :
    (t : ℕ) (p : ClientPtr) (ps : List ClientPtr) (s : Registry) (info : ClientInfo) (s2 : Registry)
    → s.heap p ≡ some info
    → info.abort ≡ false
    → sweep t ps s ≡ some s2
    → sweep t (p ∷ ps) s ≡ some s2
unfolding sweep
first_active t p ps s info s2 alive active h = rw (sweep, alive, active) h

pub swept :
    (t : ℕ) (ps : List ClientPtr) (s : Registry)
    → Agrees s
    → Once ps
    → AllListed s t ps
    → Swept s t ps
unfolding sweep is_among
swept t [] s a o l = record {
  result = s;
  runs = refl;
  thinned = self-Thinned s a;
  others = λ t' n. refl;
  active = λ p h k. cc;
}
swept t (p ∷ ps) s a (once, o) (here, l) =
    let (info, alive, _, _) = a.listed t p here in
    elim (Bool-cases info.abort) [
      | inl aborted ↦
          let s1 = erase_client t p info s in
          let thin = erase-Thinned s t p info a here alive aborted in
          let r = swept t ps s1 thin.agrees o (rest_listed s t p info a here alive ps once l) in
          record {
            result = r.result;
            runs =
                first_aborted t p ps s info s1 r.result alive aborted
                  (removed s t p info here alive) r.runs;
            thinned = then-Thinned s s1 r.result thin r.thinned;
            others = λ t' n. r.others t' n ∙ other_type s t p info a here alive t' n;
            active = λ q h k. elim (Bool-cases (q == p)) [
              | inr n ↦ r.active q (ground (arith, h, n)) k
              | inl n ↦
                  let same : q ≡ p = (==_iff q p).0 n in
                  let listed : IsListed s1 t p =
                    subst (IsListed s1 t) same (r.thinned.fewer t q k).0 in
                  absurd (ground (arith, listed, not_listed s t p info a here alive t))
            ];
          }
      | inr active ↦
          let r = swept t ps s a o l in
          record {
            result = r.result;
            runs = first_active t p ps s info r.result alive active r.runs;
            thinned = r.thinned;
            others = r.others;
            active = λ q h k. elim (Bool-cases (q == p)) [
              | inr n ↦ r.active q (ground (arith, h, n)) k
              | inl n ↦
                  let same : p ≡ q = sym ((==_iff q p).0 n) in
                  subst (IsActive r.result) same
                    (info, (r.thinned.kept t p info here alive active).1, active)
            ];
          }
    ]
