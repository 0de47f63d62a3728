-- ===== src/Evict/Cycle/Refills.antt =====
-- The population of the pool in `performEvictions`, for what it does to the state (evict.c).
use red_opt.Base.{ℕ, ℤ, ◌+◌, ◌≡◌, refl, List, [], ◌∷◌}
use red_opt.Base.{Bool, Option, some, >>=-eq-some}
use red_opt.Base.{◌==◌, Bool-cases, inl, inr}
use mathlib.Core.Path.{subst}
use red_opt.Server.{Server, flag_allkeys, flag_lru_histogram}
use red_opt.Clock.{lru_clock}
use red_opt.Double.{Double}
use red_opt.Object.{Robj}
use red_opt.Histogram.{calculate_statistics, define_window_boundaries}
use red_opt.Pool.{Sds, Pool, by_idle, by_score, insert_candidate}
use red_opt.Pool.Shape.{IsPool}
use red_opt.Pool.Insert.{insert_candidate-refines}
use red_opt.Populate.{
  Sample, idle_of, eviction_pool_populate, score_of, populate_scored, sampled_objects,
}
use red_opt.Populate.{print_pool, pcounter_after, eviction_pool_populate_lru_histogram}
use red_opt.Dict.{DictApi}
use red_opt.Db.{KeySpace}
use red_opt.Evict.Cycle.{
  Outside, Eviction, dict_size, samples_of, refill, populate_db, populate_dbs,
}
use red_opt.Evict.Cycle.Shrink.{Evicts, quiet, Evicts-trans}

-- Whatever the samples are, the pool keeps its invariant where the population returns.
populate-IsPool :
    {F : Type 0} (s : Server) (dbid : ℕ) (same : Bool) (find : Sds → Option Robj)
    (samples : List Sample) (p : Pool F) {p' : Pool F}
    → eviction_pool_populate s dbid same find samples p ≡ some p'
    → IsPool p
    → IsPool p'
unfolding eviction_pool_populate
populate-IsPool s dbid same find [] p {p'} e v =
    let same_pool : p ≡ p' = cc in subst IsPool same_pool v
populate-IsPool s dbid same find (x ∷ samples) p e v =
    let (idle, e1, rest) = >>=-eq-some (idle_of s same find x) _ e in
    populate-IsPool s dbid same find samples (insert_candidate by_idle p x.0 idle dbid) rest
      (insert_candidate-refines by_idle p x.0 idle dbid v).0

module _ (d : Double) (s : Server) (dbid : ℕ) (same : Bool) (find : Sds → Option Robj) where
  scored-IsPool :
      (bounds : List d.F) (samples : List Sample) (p : Pool d.F) {p' : Pool d.F}
      → populate_scored d s dbid same find bounds samples p ≡ some p'
      → IsPool p
      → IsPool p'
  unfolding populate_scored
  scored-IsPool bounds [] p {p'} e v = let same_pool : p ≡ p' = cc in subst IsPool same_pool v
  scored-IsPool bounds (x ∷ samples) p e v =
      let (score, e1, rest) = >>=-eq-some (score_of d s dbid same find bounds x) _ e in
      scored-IsPool bounds samples (insert_candidate (by_score d) p x.0 score dbid) rest
        (insert_candidate-refines (by_score d) p x.0 score dbid v).0

  histogram-IsPool :
      (left_over : ℤ) (samples : List Sample) (p : Pool d.F) {p' : Pool d.F}
      → eviction_pool_populate_lru_histogram d s dbid same find left_over samples p ≡ some p'
      → IsPool p
      → IsPool p'
  unfolding eviction_pool_populate_lru_histogram
  histogram-IsPool left_over samples p {p'} e v =
      let (objects, e1, k1) = >>=-eq-some (sampled_objects d s dbid same find samples) _ e in
      let (statistics, e2, k2) = >>=-eq-some (calculate_statistics d (lru_clock s) objects) _ k1 in
      let bounds = define_window_boundaries d statistics in
      let (filled, e3, k3) =
        >>=-eq-some (populate_scored d s dbid same find bounds samples p) _ k2 in
      let (printed, e4, k4) =
        >>=-eq-some (print_pool (pcounter_after left_over samples) filled) _ k3 in
      let same_pool : filled ≡ p' = cc in
      subst IsPool same_pool (scored-IsPool bounds samples p e3 v)

module _ (keys : DictApi Robj) (times : DictApi ℕ) (d : Double) (out : Outside keys times d)
    (s : Server) where
  refill-IsPool :
      (i : ℕ) (db : KeySpace keys times) (st : Eviction keys times d) {p : Pool d.F}
      → refill keys times d out s i db st ≡ some p
      → IsPool st.pool
      → IsPool p
  unfolding refill
  refill-IsPool i db st e v =
      let all = flag_allkeys s.maxmemory_policy in
      let samples = samples_of keys times d out all st.tick db in
      elim (Bool-cases (flag_lru_histogram s.maxmemory_policy)) [
        | inl histogram ↦
            histogram-IsPool d s i all (keys.find db.dict) (out.stack_value st.tick) samples st.pool
              (rw histogram at e) v
        | inr other ↦ populate-IsPool s i all (keys.find db.dict) samples st.pool (rw other at e) v
      ]

  populate_db-Evicts :
      (i : ℕ) (db : KeySpace keys times) (st : Eviction keys times d) {st' : Eviction keys times d}
      → populate_db keys times d out s i db st ≡ some st'
      → Evicts keys times d st st'
  unfolding populate_db
  populate_db-Evicts i db st {st'} e =
      elim (Bool-cases (dict_size keys times d (flag_allkeys s.maxmemory_policy) db == 0)) [
        | inl empty ↦
            let e' = rw empty at e in
            let same : st ≡ st' = cc in
            subst (Evicts keys times d st) same (quiet keys times d (λ p. p) refl refl)
        | inr more ↦
            let (pool, e1, e2) = >>=-eq-some (refill keys times d out s i db st) _ (rw more at e) in
            let same : record st { pool = pool; tick = st.tick + 1 } ≡ st' = cc in
            subst (Evicts keys times d st) same
              (quiet keys times d (refill-IsPool i db st e1) refl refl)
      ]

  pub populate_dbs-Evicts :
      (i : ℕ) (dbs : List (KeySpace keys times)) (total : ℕ) (st : Eviction keys times d)
      {total' : ℕ} {st' : Eviction keys times d}
      → populate_dbs keys times d out s i dbs total st ≡ some (total', st')
      → Evicts keys times d st st'
  unfolding populate_dbs
  populate_dbs-Evicts i [] total st {total'} {st'} e =
      let same : st ≡ st' = cc in
      subst (Evicts keys times d st) same (quiet keys times d (λ p. p) refl refl)
  populate_dbs-Evicts i (db ∷ dbs) total st e =
      let (mid, e1, e2) = >>=-eq-some (populate_db keys times d out s i db st) _ e in
      Evicts-trans keys times d (populate_db-Evicts i db st e1)
        (populate_dbs-Evicts (i + 1) dbs _ mid e2)
