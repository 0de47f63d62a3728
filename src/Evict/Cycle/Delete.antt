-- ===== src/Evict/Cycle/Delete.antt =====
-- The key that is chosen from the pool, and what its removal leaves.
use red_opt.Base.{
  ℕ, zero, suc, ◌+◌, ◌≡◌, ◌≢◌, refl, sym, ap, ◌∙◌, List, [], ◌∷◌, Bool, true, Option, none, some,
}
use red_opt.Base.{
  get_elem?, modify, >>=-eq-some, ◌==◌, Bool-cases, Option-cases, inl, inr, if◌then◌else◌,
}
use red_opt.Server.{Server, flag_allkeys}
use red_opt.Double.{Double}
use red_opt.Object.{Robj}
use red_opt.Pool.{Sds, Entry, pool_size}
use red_opt.Dict.{DictApi, sds_eq}
use red_opt.Db.{KeySpace}
use red_opt.Db.Lookup.{delete_present}
use red_opt.Evict.{Target, target_at, clear, scan}
use red_opt.Evict.Cycle.{
  Choice, best, Outside, Eviction, dict_size, refill, populate_db, populate_dbs, key_exists,
  pick_best, evict_from, evict_key,
}

pub get_elem?-modify :
    {A : Type 0} (f : A → A) (xs : List A) (i : ℕ) {x : A}
    → get_elem? xs i ≡ some x
    → get_elem? (modify i f xs) i ≡ some (f x)
get_elem?-modify f [] i e = cc
get_elem?-modify f (y ∷ ys) zero e = cc
get_elem?-modify f (y ∷ ys) (suc i) e = get_elem?-modify f ys i e

pub get_elem?-modify_other :
    {A : Type 0} (f : A → A) (xs : List A) (i j : ℕ)
    → i ≢ j
    → get_elem? (modify i f xs) j ≡ get_elem? xs j
get_elem?-modify_other f [] i j ne = refl
get_elem?-modify_other f (y ∷ ys) zero zero ne = absurd (ne refl)
get_elem?-modify_other f (y ∷ ys) zero (suc j) ne = refl
get_elem?-modify_other f (y ∷ ys) (suc i) zero ne = refl
get_elem?-modify_other f (y ∷ ys) (suc i) (suc j) ne =
    get_elem?-modify_other f ys i j (λ e. ne (ap suc e))

-- A scan chooses only a key that exists.
scan_exists :
    {F : Type 0} (z : F) (bufs : ℕ → Sds) (exists : ℕ → Sds → Bool) (k : ℕ) (es : List (Entry F))
    {t : Target}
    → (scan z bufs exists k es).0 ≡ some t
    → exists t.0 t.1 ≡ true
unfolding scan
scan_exists z bufs exists zero es e = cc
scan_exists z bufs exists (suc k) es {t} e = elim (Option-cases (target_at z bufs exists es k)) [
  | inl absent ↦ scan_exists z bufs exists k es (rw (absent, scan) at e)
  | inr (u, found) ↦ elim (Bool-cases (exists u.0 u.1)) [
    | inl there ↦
        let e' = rw (found, scan, there) at e in let same : u ≡ t = cc in rw (sym same) there
    | inr ghost ↦ scan_exists z bufs exists k (modify k (clear z) es) (rw (found, scan, ghost) at e)
  ]
]

same_best :
    {S : Type 0} {t u : Target} {a b : S}
    → ◌≡◌ {A = Option (Choice × S)} (some (best t, a)) (some (best u, b))
    → (t ≡ u) × (a ≡ b)
same_best e = (cc, cc)

module _ (keys : DictApi Robj) (times : DictApi ℕ) (d : Double) where
  populate_db-dbs :
      (out : Outside keys times d) (s : Server) (i : ℕ) (db : KeySpace keys times)
      (st : Eviction keys times d) {st' : Eviction keys times d}
      → populate_db keys times d out s i db st ≡ some st'
      → st'.dbs ≡ st.dbs
  unfolding populate_db
  populate_db-dbs out s i db st {st'} e =
      elim (Bool-cases (dict_size keys times d (flag_allkeys s.maxmemory_policy) db == 0)) [
        | inl empty ↦
            let e' = rw empty at e in let same : st ≡ st' = cc in ap (λ x. x.dbs) (sym same)
        | inr more ↦
            let (pool, e1, e2) = >>=-eq-some (refill keys times d out s i db st) _ (rw more at e) in
            let same : record st { pool = pool; tick = st.tick + 1 } ≡ st' = cc in
            ap (λ x. x.dbs) (sym same)
      ]

  populate_dbs-dbs :
      (out : Outside keys times d) (s : Server) (i : ℕ) (dbs : List (KeySpace keys times))
      (total : ℕ) (st : Eviction keys times d) {total' : ℕ} {st' : Eviction keys times d}
      → populate_dbs keys times d out s i dbs total st ≡ some (total', st')
      → st'.dbs ≡ st.dbs
  unfolding populate_dbs
  populate_dbs-dbs out s i [] total st {total'} {st'} e =
      let same : st ≡ st' = cc in ap (λ x. x.dbs) (sym same)
  populate_dbs-dbs out s i (db ∷ dbs) total st e =
      let (mid, e1, e2) = >>=-eq-some (populate_db keys times d out s i db st) _ e in
      populate_dbs-dbs out s (i + 1) dbs _ mid e2 ∙ populate_db-dbs out s i db st e1

  -- When the loop around the scan chooses a key, under any policy that uses the pool, the key is
  -- in the dictionary of its database that is sampled (the keys or the times), and no database has
  -- changed.
  pub pick_best_exists :
      (fuel : ℕ) (out : Outside keys times d) (s : Server) (st : Eviction keys times d) {t : Target}
      {st' : Eviction keys times d}
      → pick_best keys times d fuel out s st ≡ some (best t, st')
      → (key_exists keys times d (flag_allkeys s.maxmemory_policy) st'.dbs t.0 t.1 ≡ true)
        × (st'.dbs ≡ st.dbs)
  unfolding pick_best
  pick_best_exists zero out s st e = cc
  pick_best_exists (suc n) out s st {t} {st'} e =
      let (populated, e1, e2) = >>=-eq-some (populate_dbs keys times d out s 0 st.dbs 0 st) _ e in
      let mid = populated.1 in
      let same_dbs = populate_dbs-dbs out s 0 st.dbs 0 st e1 in
      let exists = key_exists keys times d (flag_allkeys s.maxmemory_policy) mid.dbs in
      let scanned = scan (d.of_ℕ 0) mid.pool.bufs exists pool_size mid.pool.entries in
      let left = record mid { pool = record { entries = scanned.1; bufs = mid.pool.bufs } } in
      elim (Bool-cases (populated.0 == 0)) [
        | inl empty ↦ let e3 = rw empty at e2 in cc
        | inr more ↦ elim (Option-cases scanned.0) [
          | inl none_left ↦
              let e3 = rw (more, none_left) at e2 in
              let (there, same) = pick_best_exists n out s left e3 in (there, same ∙ same_dbs)
          | inr (u, found) ↦
              let (same, same_st) = same_best (rw (more, found) at e2) in
              let there = scan_exists _ _ exists pool_size mid.pool.entries found in
              rw (sym same, sym same_st) (there, same_dbs)
        ]
      ]

  -- The removal of a key that is in its database leaves there neither its value nor its time and
  -- all other keys with theirs; every other database is left as it was; the statistics count one
  -- evicted key.
  pub evict_key-find :
      (out : Outside keys times d) (t : Target) (st : Eviction keys times d)
      (db : KeySpace keys times) {o : Robj}
      → get_elem? st.dbs t.0 ≡ some db
      → keys.find db.dict t.1 ≡ some o
      → (i : ℕ) (j : Sds) → i ≢ t.0
      → (db' : KeySpace keys times) × (get_elem? (evict_key keys times d out t st).dbs t.0
          ≡ some db')
        × (keys.find db'.dict j ≡ (if sds_eq t.1 j then none else keys.find db.dict j))
        × (times.find db'.expires j ≡ (if sds_eq t.1 j then none else times.find db.expires j))
        × (get_elem? (evict_key keys times d out t st).dbs i ≡ get_elem? st.dbs i)
        × ((evict_key keys times d out t st).stat_evictedkeys ≡ st.stat_evictedkeys + 1)
  unfolding evict_key evict_from
  evict_key-find out t st db {o} at_db e i j ne =
      let (found, time, there) = delete_present keys times db t.1 j o e in
      let f = evict_from keys times d out.lazyfree_lazy_eviction t.1 in
      (
        f db,
        get_elem?-modify f st.dbs t.0 at_db,
        found,
        time,
        get_elem?-modify_other f st.dbs t.0 i (λ z. ne (sym z)),
        refl,
      )
