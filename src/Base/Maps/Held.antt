-- ===== src/Base/Maps/Held.antt =====
-- About the pointers that a map holds.
use db_query_optimizer.Common.{
  subst, ℕ, Bool, Option, none, some, [], ◌∷◌, ◌≡◌, arith, Bool-cases, inl, inr,
}
use db_query_optimizer.Base.Sets.{equivalent}
use db_query_optimizer.Base.Maps.{Map, Points, holds_key, value_at, put, touch, merge}

module _ {K : Type 0} where
  pub Points-mono : (P Q : ℕ → Type 0) (m : Map K) → ((a : ℕ) → P a → Q a) → Points P m → Points Q m
  Points-mono P Q [] weaken h = tt
  Points-mono P Q ((k, none) ∷ m) weaken h = Points-mono P Q m weaken h
  Points-mono P Q ((k, some a) ∷ m) weaken (h, hs) = (weaken a h, Points-mono P Q m weaken hs)

  Points-cons :
      (P : ℕ → Type 0) (k : K) (v : Option ℕ) (m n : Map K)
      → Points P ((k, v) ∷ n)
      → Points P m
      → Points P ((k, v) ∷ m)
  Points-cons P k none m n h hs = hs
  Points-cons P k (some a) m n (h, _) hs = (h, hs)

  Points-tail :
      (P : ℕ → Type 0) (k : K) (v : Option ℕ) (m : Map K) → Points P ((k, v) ∷ m) → Points P m
  Points-tail P k none m h = h
  Points-tail P k (some a) m (_, h) = h

  module _ (lt : K → K → Bool) (P : ℕ → Type 0) where
    pub value_at-Points : (k : K) (m : Map K) (a : ℕ) → Points P m → value_at lt k m ≡ some a → P a
    unfolding value_at
    value_at-Points k [] a h e = cc
    value_at-Points k ((l, none) ∷ m) a h e = elim (Bool-cases (equivalent lt k l)) [
      | inl t ↦ absurd (ground arith)
      | inr t ↦ value_at-Points k m a h (ground arith)
    ]
    value_at-Points k ((l, some b) ∷ m) a (h, hs) e = elim (Bool-cases (equivalent lt k l)) [
      | inl t ↦ subst P (ground arith) h
      | inr t ↦ value_at-Points k m a hs (ground arith)
    ]

    pub put-Points : (k : K) (a : ℕ) (m : Map K) → P a → Points P m → Points P (put lt k (some a) m)
    unfolding put
    put-Points k a [] p h = (p, tt)
    put-Points k a ((l, v) ∷ m) p h = elim (Bool-cases (equivalent lt k l)) [
      | inl t ↦ rw (put, t) (p, Points-tail P l v m h)
      | inr t ↦
          rw (put, t)
            (Points-cons P l v (put lt k (some a) m) m h
              (put-Points k a m p (Points-tail P l v m h)))
    ]

    pub put-null-Points : (k : K) (m : Map K) → Points P m → Points P (put lt k none m)
    unfolding put
    put-null-Points k [] h = tt
    put-null-Points k ((l, v) ∷ m) h = elim (Bool-cases (equivalent lt k l)) [
      | inl t ↦ rw (put, t) (Points-tail P l v m h)
      | inr t ↦
          rw (put, t)
            (Points-cons P l v (put lt k none m) m h (put-null-Points k m (Points-tail P l v m h)))
    ]

    pub touch-Points : (k : K) (m : Map K) → Points P m → Points P (touch lt k m)
    unfolding touch
    touch-Points k m h = elim (Bool-cases (holds_key lt k m)) [
      | inl t ↦ rw (touch, t) h
      | inr t ↦ rw (touch, t) h
    ]

    pub merge-Points : (m n : Map K) → Points P m → Points P n → Points P (merge lt m n)
    unfolding merge
    merge-Points m [] h g = h
    merge-Points m ((k, v) ∷ n) h g = elim (Bool-cases (holds_key lt k m)) [
      | inl t ↦ rw (merge, t) (merge-Points m n h (Points-tail P k v n g))
      | inr t ↦
          rw (merge, t)
            (merge-Points ((k, v) ∷ m) n (Points-cons P k v m n g h) (Points-tail P k v n g))
    ]
