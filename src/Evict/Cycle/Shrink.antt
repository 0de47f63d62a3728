-- ===== src/Evict/Cycle/Shrink.antt =====
-- What `performEvictions` does to the pool, the databases and the count of evicted keys (evict.c).
use red_opt.Base.{ℕ, zero, suc, ◌≤◌, ◌≡◌, refl, ap, ◌∙◌, ◌⊎◌, List, [], ◌∷◌}
use red_opt.Base.{Bool, true, false, Option, none, ◌>>=◌, length, get_elem?, modify}
use red_opt.Base.{inl, inr, if◌then◌else◌, arith}
use red_opt.Double.{Double}
use red_opt.Object.{Robj}
use red_opt.Pool.{Sds}
use red_opt.Pool.Shape.{IsPool}
use red_opt.Dict.{DictApi, sds_eq}
use red_opt.Db.{KeySpace}
use red_opt.Db.Lookup.{db_generic_delete-find}
use red_opt.Evict.{Target}
use red_opt.Evict.Cycle.{Outside, Eviction, evict_from, evict_key}

-- What is there afterwards was there before.
abbrev pub Sub : {V : Type 0} → Option V → Option V → Type 0
Sub before after = (after ≡ before) ⊎ (after ≡ none)

Sub-trans : {V : Type 0} {a b c : Option V} → Sub a b → Sub b c → Sub a c
Sub-trans h (inr gone) = inr gone
Sub-trans (inl same) (inl same') = inl (same' ∙ same)
Sub-trans (inr gone) (inl same') = inr (same' ∙ gone)

length-modify : {A : Type 0} (i : ℕ) (f : A → A) (xs : List A) → length (modify i f xs) ≡ length xs
length-modify i f [] = refl
length-modify zero f (x ∷ xs) = refl
length-modify (suc i) f (x ∷ xs) = ap suc (length-modify i f xs)

-- One element is changed, and of each a part is looked up.
looked_up-modify :
    {A V : Type 0} (look : A → Option V) (f : A → A) (xs : List A) (t i : ℕ)
    → ((x : A) → Sub (look x) (look (f x)))
    → Sub (get_elem? xs i >>= look) (get_elem? (modify t f xs) i >>= look)
looked_up-modify look f [] t i h = inl refl
looked_up-modify look f (x ∷ xs) zero zero h = h x
looked_up-modify look f (x ∷ xs) zero (suc i) h = inl refl
looked_up-modify look f (x ∷ xs) (suc t) zero h = inl refl
looked_up-modify look f (x ∷ xs) (suc t) (suc i) h = looked_up-modify look f xs t i h

module _ (keys : DictApi Robj) (times : DictApi ℕ) (d : Double) where
  -- The value and the time of a key in a database.
  abbrev pub value_at : List (KeySpace keys times) → ℕ → Sds → Option Robj
  value_at dbs i key = get_elem? dbs i >>= λ db. keys.find db.dict key

  abbrev pub time_at : List (KeySpace keys times) → ℕ → Sds → Option ℕ
  time_at dbs i key = get_elem? dbs i >>= λ db. times.find db.expires key

  -- The pool keeps its invariant; the databases are as many as before, and each has no value and no
  -- time that it did not have; if no key has been counted as evicted, they have not changed.
  pub record Evicts (st st' : Eviction keys times d) : Type 0 where
    pub pool : IsPool st.pool → IsPool st'.pool
    pub number : length st'.dbs ≡ length st.dbs
    pub values : (i : ℕ) (key : Sds) → Sub (value_at st.dbs i key) (value_at st'.dbs i key)
    pub expiries : (i : ℕ) (key : Sds) → Sub (time_at st.dbs i key) (time_at st'.dbs i key)
    pub counted : st.stat_evictedkeys ≤ st'.stat_evictedkeys
    pub unchanged : st.stat_evictedkeys ≡ st'.stat_evictedkeys → st'.dbs ≡ st.dbs

  -- Nothing is evicted.
  pub quiet :
      {st st' : Eviction keys times d}
      → (IsPool st.pool → IsPool st'.pool)
      → st'.dbs ≡ st.dbs
      → st.stat_evictedkeys ≡ st'.stat_evictedkeys
      → Evicts st st'
  quiet p e n = record {
    pool = p;
    number = ap length e;
    values = λ i key. inl (ap (λ dbs. value_at dbs i key) e);
    expiries = λ i key. inl (ap (λ dbs. time_at dbs i key) e);
    counted = omega arith;
    unchanged = λ h. e;
  }

  pub Evicts-trans : {a b c : Eviction keys times d} → Evicts a b → Evicts b c → Evicts a c
  Evicts-trans h k = record {
    pool = λ p. k.pool (h.pool p);
    number = k.number ∙ h.number;
    values = λ i key. Sub-trans (h.values i key) (k.values i key);
    expiries = λ i key. Sub-trans (h.expiries i key) (k.expiries i key);
    counted = omega (arith, h.counted, k.counted);
    unchanged = λ e.
        k.unchanged (omega (arith, h.counted, k.counted, e))
        ∙ h.unchanged (omega (arith, h.counted, k.counted, e));
  }

  missing_or_kept :
      {V : Type 0} (b : Bool) {o after : Option V} → after ≡ (if b then none else o) → Sub o after
  missing_or_kept true e = inr e
  missing_or_kept false e = inl e

  module _ (lazy : Bool) (key : Sds) where
    evict_from-values :
        (j : Sds) (db : KeySpace keys times)
        → Sub (keys.find db.dict j) (keys.find (evict_from keys times d lazy key db).dict j)
    unfolding evict_from
    evict_from-values j db = elim (db_generic_delete-find keys times db key j) [
      | inl (absent, same) ↦ inl (ap (λ out. keys.find out.1.dict j) same)
      | inr (there, found, time) ↦ missing_or_kept (sds_eq key j) found
    ]

    evict_from-times :
        (j : Sds) (db : KeySpace keys times)
        → Sub (times.find db.expires j) (times.find (evict_from keys times d lazy key db).expires j)
    unfolding evict_from
    evict_from-times j db = elim (db_generic_delete-find keys times db key j) [
      | inl (absent, same) ↦ inl (ap (λ out. times.find out.1.expires j) same)
      | inr (there, found, time) ↦ missing_or_kept (sds_eq key j) time
    ]

  pub evict_key-Evicts :
      (out : Outside keys times d) (t : Target) (st : Eviction keys times d)
      → Evicts st (evict_key keys times d out t st)
  unfolding evict_key
  evict_key-Evicts out t st =
      let f = evict_from keys times d out.lazyfree_lazy_eviction t.1 in
      record {
        pool = λ p. p;
        number = length-modify t.0 f st.dbs;
        values = λ i key.
            looked_up-modify (λ db. keys.find db.dict key) f st.dbs t.0 i
              (evict_from-values out.lazyfree_lazy_eviction t.1 key);
        expiries = λ i key.
            looked_up-modify (λ db. times.find db.expires key) f st.dbs t.0 i
              (evict_from-times out.lazyfree_lazy_eviction t.1 key);
        counted = omega arith;
        unchanged = λ e. absurd (omega arith);
      }
