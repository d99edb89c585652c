-- ===== src/Server/Cleared.antt =====
-- About `clear_aborted`: all the types of clients, one after the other.
use db_query_optimizer.Common.{
  ◌<◌, sym, subst, ==_iff, ℕ, true, false, some, List, [], ◌∷◌, ◌==◌, ◌≡◌, refl, arith, ◌∙◌,
  Bool-cases, inl, inr, All,
}
use db_query_optimizer.Server.{
  ClientPtr, Registry, clients_at, is_among, sweep, sweep_all, clear_aborted,
}
use db_query_optimizer.Server.Connected.{Once, Above, IsSorted, Agrees}
use db_query_optimizer.Server.Swept.{
  IsListed, Thinned, self-Thinned, then-Thinned, IsActive, AllListed, swept,
}

-- No entry has the key.
abbrev pub Fresh : ℕ → List (ℕ × List ClientPtr) → Type 0
Fresh t [] = Unit
Fresh t ((k, ps) ∷ rest) = ((k == t) ≡ false) × Fresh t rest

-- The entries are those of the map, each key once.
abbrev pub AllMatch : List (ℕ × List ClientPtr) → List (ℕ × List ClientPtr) → Type 0
AllMatch m [] = Unit
AllMatch m ((t, ps) ∷ rest) = (clients_at m t ≡ ps) × Fresh t rest × AllMatch m rest

further-Fresh :
    (t k : ℕ) (m : List (ℕ × List ClientPtr)) → t < k → Above k m → IsSorted m → Fresh t m
further-Fresh t k [] h a s = tt
further-Fresh t k ((l, ps) ∷ rest) h a (b, s) =
    (ground (arith, h, a), further-Fresh t l rest (omega arith) b s)

sorted-Fresh : (t : ℕ) (m : List (ℕ × List ClientPtr)) → Above t m → IsSorted m → Fresh t m
sorted-Fresh t [] a s = tt
sorted-Fresh t ((l, ps) ∷ rest) a (b, s) = (ground (arith, a), further-Fresh t l rest a b s)

match_shift :
    (k : ℕ) (qs : List ClientPtr) (m entries : List (ℕ × List ClientPtr))
    → Fresh k entries
    → AllMatch m entries
    → AllMatch ((k, qs) ∷ m) entries
unfolding clients_at
match_shift k qs m [] f h = tt
match_shift k qs m ((t, ps) ∷ rest) (n, f) (e, g, h) =
    (ground (arith, n, e), g, match_shift k qs m rest f h)

pub all_match : (m : List (ℕ × List ClientPtr)) → IsSorted m → AllMatch m m
unfolding clients_at
all_match [] h = tt
all_match ((t, ps) ∷ rest) (a, h) =
    let fresh = sorted-Fresh t rest a h in
    (ground arith, fresh, match_shift t ps rest rest fresh (all_match rest h))

match_after :
    (t : ℕ) (m m' : List (ℕ × List ClientPtr)) (entries : List (ℕ × List ClientPtr))
    → ((t' : ℕ) → (t' == t) ≡ false → clients_at m' t' ≡ clients_at m t')
    → Fresh t entries
    → AllMatch m entries
    → AllMatch m' entries
match_after t m m' [] same f h = tt
match_after t m m' ((k, ps) ∷ rest) same (n, f) (e, g, h) =
    (same k n ∙ e, g, match_after t m m' rest same f h)

all_listed :
    (s : Registry) (t : ℕ) (ps : List ClientPtr)
    → ((q : ClientPtr) → is_among q ps ≡ true → IsListed s t q)
    → AllListed s t ps
unfolding is_among
all_listed s t [] h = tt
all_listed s t (p ∷ ps) h = (h p (ground arith), all_listed s t ps (λ q k. h q (ground (arith, k))))

-- What the sweep of some entries comes to.
record SweptAll (s : Registry) (entries : List (ℕ × List ClientPtr)) : Type 0 where
  result : Registry
  runs : sweep_all entries s ≡ some result
  thinned : Thinned s result
  active :
      (t : ℕ) (p : ClientPtr)
      → is_among p (clients_at entries t) ≡ true
      → IsListed result t p
      → IsActive result p

later-IsActive :
    (s s' : Registry) (t : ℕ) (p : ClientPtr)
    → Thinned s s'
    → IsListed s' t p
    → IsActive s p
    → IsActive s' p
later-IsActive s s' t p thin k (info, e, n) = (info, (thin.fewer t p k).1 ∙ e, n)

one_after_one :
    (t : ℕ) (ps : List ClientPtr) (rest : List (ℕ × List ClientPtr)) (s s1 s2 : Registry)
    → sweep t ps s ≡ some s1
    → sweep_all rest s1 ≡ some s2
    → sweep_all ((t, ps) ∷ rest) s ≡ some s2
unfolding sweep_all
one_after_one t ps rest s s1 s2 h k = rw (sweep_all, h) k

swept_all :
    (entries : List (ℕ × List ClientPtr)) (s : Registry)
    → Agrees s
    → AllMatch s.client_map entries
    → SweptAll s entries
unfolding sweep_all clients_at is_among
swept_all [] s a h = record {
  result = s;
  runs = refl;
  thinned = self-Thinned s a;
  active = λ t p n k. cc;
}
swept_all ((t, ps) ∷ rest) s a (e, fresh, h) =
    let listed : AllListed s t ps =
      all_listed s t ps (λ q k. subst (λ qs. is_among q qs ≡ true) (sym e) k) in
    let r1 = swept t ps s a (subst Once e (a.once t)) listed in
    let r2 =
      swept_all rest r1.result r1.thinned.agrees
        (match_after t s.client_map r1.result.client_map rest r1.others fresh h) in
    record {
      result = r2.result;
      runs = one_after_one t ps rest s r1.result r2.result r1.runs r2.runs;
      thinned = then-Thinned s r1.result r2.result r1.thinned r2.thinned;
      active = λ t' p n k. elim (Bool-cases (t' == t)) [
        | inr d ↦ r2.active t' p (ground (arith, d, n)) k
        | inl d ↦
            let same : t' ≡ t = (==_iff t' t).0 d in
            let k' : IsListed r2.result t p = subst (λ u. IsListed r2.result u p) same k in
            later-IsActive r1.result r2.result t p r2.thinned k'
              (r1.active p (ground (arith, d, n)) (r2.thinned.fewer t p k').0)
      ];
    }

clients-IsActive :
    (s : Registry) (ps : List ClientPtr)
    → ((q : ClientPtr) → is_among q ps ≡ true → IsActive s q)
    → All (IsActive s) ps
unfolding is_among
clients-IsActive s [] h = tt
clients-IsActive s (p ∷ ps) h =
    (h p (ground arith), clients-IsActive s ps (λ q k. h q (ground (arith, k))))

-- Every client of the entries is active.
abbrev pub EveryActive : Registry → List (ℕ × List ClientPtr) → Type 0
EveryActive s [] = Unit
EveryActive s ((t, ps) ∷ rest) = All (IsActive s) ps × EveryActive s rest

every_active :
    (s : Registry) (entries : List (ℕ × List ClientPtr))
    → AllMatch s.client_map entries
    → ((t : ℕ) (p : ClientPtr) → IsListed s t p → IsActive s p)
    → EveryActive s entries
every_active s [] m h = tt
every_active s ((t, ps) ∷ rest) (e, _, m) h = (
  clients-IsActive s ps (λ q k. h t q (subst (λ qs. is_among q qs ≡ true) (sym e) k)),
  every_active s rest m h,
)

-- On a registry whose maps agree, clearing the aborted clients reads no deleted data; the maps still
-- agree, clients only leave and those that stay are unchanged; every client that is not aborted
-- stays, and every client that stays is not aborted.
pub clear_aborted-Thinned :
    (s : Registry)
    → Agrees s
    → (s' : Registry) × (clear_aborted s ≡ some s') × Thinned s s' × EveryActive s' s'.client_map
unfolding clear_aborted
clear_aborted-Thinned s a =
    let r = swept_all s.client_map s a (all_match s.client_map a.sorted) in
    (
      r.result,
      r.runs,
      r.thinned,
      every_active r.result r.result.client_map
          (all_match r.result.client_map r.thinned.agrees.sorted)
          (λ t p k. r.active t p (r.thinned.fewer t p k).0 k),
    )
