-- ===== src/Tests/Pools.antt =====
-- The theorems on the pool at concrete inputs.
use red_opt.Base.{
  ℕ, zero, suc, negsuc, inl, ◌≡◌, ◌∙◌, sym, ap, refl, List, [], ◌∷◌, true, none, some, length, ltb,
  arith,
}
use mathlib.Core.List.{Perm}
use mathlib.Core.Path.{subst}
use red_opt.Clock.{lru_clock, estimate_object_idle_time}
use red_opt.Pool.{Pool, by_idle, by_score, pool_size, insert_candidate}
use red_opt.Pool.Spec.{Item, insert_sorted, bounded_insert, contents}
use red_opt.Pool.Shape.{IsPacked, IsPool}
use red_opt.Pool.Insert.{pool_contents, insert_candidate-refines}
use red_opt.Pool.Order.{IsRanked, Above, bounded_insert-IsRanked}
use red_opt.Pool.Best.{insert_candidate-best, eviction_pool_alloc-IsPool}
use red_opt.Populate.{Sample, value, object_of, idle_of, sampled_objects}
use red_opt.Populate.{eviction_pool_populate, eviction_pool_populate_lru_histogram}
use red_opt.Populate.Refine.{insert_all, Any, idle_order, idle_items, Number, score_order}
use red_opt.Populate.Refine.{
  eviction_pool_populate-refines, eviction_pool_populate_lru_histogram-total,
}
use red_opt.Evict.{scan}
use red_opt.Evict.Best.{Chosen, scan-Chosen}
use red_opt.Tests.Doubles.{Decimal, plus, decimals}
use red_opt.Tests.Samples.{
  server, lru_server, new_pool, twice_used, often_used, twice_used-IsRobj, often_used-IsRobj,
}

new_pool-IsPool : IsPool new_pool
new_pool-IsPool = (eviction_pool_alloc-IsPool (plus 0) by_idle).0

new_pool-IsRanked : IsRanked ltb Any idle_order (pool_contents by_idle new_pool)
new_pool-IsRanked =
    subst (IsRanked ltb Any idle_order) (sym (eviction_pool_alloc-IsPool (plus 0) by_idle).1)
      (record { ascending = tt; all_ok = tt; bounded = omega arith })

new_pool-scored :
    IsRanked decimals.lt
      (Number decimals server 0 (λ k. none))
      (score_order decimals server 0 (λ k. none))
      (pool_contents (by_score decimals) new_pool)
new_pool-scored =
    subst (IsRanked decimals.lt _ (score_order decimals server 0 (λ k. none)))
      (sym (eviction_pool_alloc-IsPool (plus 0) (by_score decimals)).1)
      (record { ascending = tt; all_ok = tt; bounded = omega arith })

insert_candidate-refines_example :
    IsPool (insert_candidate by_idle new_pool (65 ∷ []) 3000 1)
    × (pool_contents by_idle (insert_candidate by_idle new_pool (65 ∷ []) 3000 1)
        ≡ bounded_insert ltb (3000, 1, 65 ∷ []) (pool_contents by_idle new_pool))
insert_candidate-refines_example =
    insert_candidate-refines by_idle new_pool (65 ∷ []) 3000 1 new_pool-IsPool

-- Two keys of the main dictionary.
abbrev samples : List Sample
samples = (65 ∷ [], value twice_used) ∷ (66 ∷ [], value often_used) ∷ []

abbrev sample_items : List (Item ℕ)
sample_items = (100000, 0, 65 ∷ []) ∷ (100000, 0, 66 ∷ []) ∷ []

idle_900 : estimate_object_idle_time lru_server 900 ≡ 100000
unfolding estimate_object_idle_time lru_clock
idle_900 = refl

samples-items : idle_items lru_server 0 true (λ k. none) samples ≡ some sample_items
unfolding idle_items idle_of object_of
samples-items = rw idle_900 refl

eviction_pool_populate-refines_example :
    (p' : Pool Decimal) × (eviction_pool_populate lru_server 0 true (λ k. none) samples new_pool
      ≡ some p')
    × IsPool p'
    × (pool_contents by_idle p' ≡ insert_all ltb sample_items (pool_contents by_idle new_pool))
    × IsRanked ltb Any idle_order (pool_contents by_idle p')
eviction_pool_populate-refines_example =
    eviction_pool_populate-refines lru_server 0 true (λ k. none) samples new_pool samples-items
      new_pool-IsPool new_pool-IsRanked

samples-objects :
    sampled_objects decimals server 0 true (λ k. none) samples ≡ some (twice_used ∷ often_used ∷ [])
unfolding sampled_objects
samples-objects = refl

eviction_pool_populate_lru_histogram-total_example :
    (p' : Pool Decimal) × (eviction_pool_populate_lru_histogram decimals server 0 true
        (λ k. none)
        (negsuc 6)
        samples
        new_pool
      ≡ some p')
    × IsPool p'
    × IsRanked decimals.lt
        (Number decimals server 0 (λ k. none))
        (score_order decimals server 0 (λ k. none))
        (pool_contents (by_score decimals) p')
eviction_pool_populate_lru_histogram-total_example =
    eviction_pool_populate_lru_histogram-total decimals server 0 (λ k. none) (negsuc 6) samples
      (twice_used ∷ often_used ∷ []) new_pool (inl (λ e. cc)) samples-objects
      (twice_used-IsRobj, (often_used-IsRobj, tt)) new_pool-IsPool new_pool-scored

-- The pool with one candidate, whose key exists in its database.
abbrev one_pool : Pool Decimal
one_pool = insert_candidate by_idle new_pool (65 ∷ []) 3000 1

one_pool-IsPool : IsPool one_pool
one_pool-IsPool = (insert_candidate-refines by_idle new_pool (65 ∷ []) 3000 1 new_pool-IsPool).0

scan-Chosen_example :
    IsPacked (scan (plus 0) one_pool.bufs (λ i k. true) pool_size one_pool.entries).1
    × Chosen
        (λ i k. true)
        (contents by_idle one_pool.bufs one_pool.entries)
        (
          (scan (plus 0) one_pool.bufs (λ i k. true) pool_size one_pool.entries).0,
          contents by_idle one_pool.bufs
              (scan (plus 0) one_pool.bufs (λ i k. true) pool_size one_pool.entries).1,
        )
scan-Chosen_example =
    scan-Chosen by_idle (plus 0) one_pool.bufs (λ i k. true) one_pool.entries one_pool-IsPool.packed

-- A pool with `n` equal candidates inserted.
filled_pool : ℕ → Pool Decimal
filled_pool zero = new_pool
filled_pool (suc n) = insert_candidate by_idle (filled_pool n) (65 ∷ []) 3000 0

filled_pool-IsPool : (n : ℕ) → IsPool (filled_pool n)
unfolding filled_pool
filled_pool-IsPool zero = new_pool-IsPool
filled_pool-IsPool (suc n) =
    (insert_candidate-refines by_idle (filled_pool n) (65 ∷ []) 3000 0 (filled_pool-IsPool n)).0

full_items : ℕ → List (Item ℕ)
full_items zero = []
full_items (suc n) = bounded_insert ltb (3000, 0, 65 ∷ []) (full_items n)

filled_pool-items : (n : ℕ) → pool_contents by_idle (filled_pool n) ≡ full_items n
unfolding filled_pool full_items
filled_pool-items zero = (eviction_pool_alloc-IsPool (plus 0) by_idle).1
filled_pool-items (suc n) =
    (insert_candidate-refines by_idle (filled_pool n) (65 ∷ []) 3000 0 (filled_pool-IsPool n)).1
    ∙ ap (bounded_insert ltb (3000, 0, 65 ∷ [])) (filled_pool-items n)

full_items-IsRanked : (n : ℕ) → IsRanked ltb Any idle_order (full_items n)
unfolding full_items
full_items-IsRanked zero = record { ascending = tt; all_ok = tt; bounded = omega arith }
full_items-IsRanked (suc n) =
    bounded_insert-IsRanked ltb Any idle_order (3000, 0, 65 ∷ []) (full_items n) tt
      (full_items-IsRanked n)

filled_pool-IsRanked : IsRanked ltb Any idle_order (pool_contents by_idle (filled_pool 16))
filled_pool-IsRanked =
    subst (IsRanked ltb Any idle_order) (sym (filled_pool-items 16)) (full_items-IsRanked 16)

filled_pool-full : length (pool_contents by_idle (filled_pool 16)) ≡ pool_size
unfolding full_items bounded_insert insert_sorted
filled_pool-full = ap length (filled_pool-items 16)

insert_candidate-best_example :
    (x : Item ℕ) × Perm
      ((4000, 0, 66 ∷ []) ∷ pool_contents by_idle (filled_pool 16))
      (x ∷ pool_contents by_idle (insert_candidate by_idle (filled_pool 16) (66 ∷ []) 4000 0))
    × Above ltb Any x.0
        (pool_contents by_idle (insert_candidate by_idle (filled_pool 16) (66 ∷ []) 4000 0))
insert_candidate-best_example =
    insert_candidate-best by_idle Any idle_order (filled_pool 16) (66 ∷ []) 4000 0
      (filled_pool-IsPool 16) filled_pool-IsRanked filled_pool-full
