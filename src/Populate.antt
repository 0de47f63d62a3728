-- ===== src/Populate.antt =====
-- `evictionPoolPopulate` and `evictionPoolPopulateLRUHistogram` (evict.c), over the samples that
-- `dictGetSomeKeys` has returned. `none` is a NULL entry, a panic, or a read outside an array.
pub mod Refine
use red_opt.Base.{
  ℕ, zero, suc, ◌+◌, ◌-◌, ◌^◌, ℤ, pos, negsuc, get_elem?, List, [], ◌∷◌, Bool, true, false, Option,
  none, some, ◌>>=◌,
}
use red_opt.Base.{sub64, ◌==◌, if◌then◌else◌}
use red_opt.Server.{Server, flag_lru, flag_lfu, volatile_ttl}
use red_opt.Clock.{lru_clock, estimate_object_idle_time}
use red_opt.Double.{Double}
use red_opt.Object.{Robj}
use red_opt.Lfu.{lfu_decr_and_return}
use red_opt.Histogram.{
  calculate_statistics, define_window_boundaries, estimate_object_eviction_score,
}
use red_opt.Pool.{Sds, Entry, Pool, pool_size, by_idle, by_score, insert_candidate}

-- The value of a dictionary entry: an object in the main dictionary, a time in the expires one.
pub data EntryVal : Type 0 where
  value : Robj → EntryVal
  expire : ℕ → EntryVal

abbrev pub Sample : Type 0
Sample = Sds × EntryVal

-- `dictGetVal` where the code takes the value for an object.
abbrev pub as_object : EntryVal → Option Robj
as_object (value o) = some o
as_object (expire t) = none

-- The object of a sampled key. `same` is `sampledict == keydict`, `find` is `dictFind(keydict, …)`.
unfoldable pub object_of : Bool → (Sds → Option Robj) → Sample → Option Robj
object_of same find (key, val) = if same then as_object val else find key

-- Of a TTL the code takes the bits, as an unsigned number.
abbrev pub ttl_rank : EntryVal → Option ℕ
ttl_rank (value o) = none
ttl_rank (expire t) = some (sub64 (2 ^ 64 - 1) t)

unfoldable pub idle_of : Server → Bool → (Sds → Option Robj) → Sample → Option ℕ
idle_of s same find (key, val) =
    if flag_lru s.maxmemory_policy
    then (object_of same find (key, val) >>= λ o. some (estimate_object_idle_time s o.lru))
    else if flag_lfu s.maxmemory_policy
    then (object_of same find (key, val) >>= λ o. some (sub64 255 (lfu_decr_and_return s o)))
    else if s.maxmemory_policy == volatile_ttl
    then ttl_rank val
    else none

module _ {F : Type 0} (s : Server) (dbid : ℕ) (same : Bool) (find : Sds → Option Robj) where
  unfoldable pub eviction_pool_populate : List Sample → Pool F → Option (Pool F)
  eviction_pool_populate [] pool = some pool
  eviction_pool_populate (x ∷ samples) pool = idle_of s same find x >>= λ idle.
      eviction_pool_populate samples (insert_candidate by_idle pool x.0 idle dbid)

-- The loop that prints the entries from `pcounter` on, with the rounds left, as what it reads.
-- `none` is a read outside the array.
unfoldable pub print_entries : {F : Type 0} → ℕ → ℕ → Pool F → Option (List (Entry F))
print_entries zero pcounter pool = some []
print_entries (suc n) pcounter pool = get_elem? pool.entries pcounter >>= λ e.
    print_entries n (pcounter + 1) pool >>= λ es. some (e ∷ es)

-- It goes on while `pcounter` is below the size of the pool, also if it is negative.
unfoldable pub print_pool : {F : Type 0} → ℤ → Pool F → Option (List (Entry F))
print_pool (pos pcounter) pool = print_entries (pool_size - pcounter) pcounter pool
print_pool (negsuc n) pool = none

-- `pcounter` after the loop over the samples, which sets it for each one: `left_over` is what the
-- memory held, since nothing else initialises it.
abbrev pub pcounter_after : ℤ → List Sample → ℤ
pcounter_after left_over [] = left_over
pcounter_after left_over (x ∷ samples) = pos 0

module _ (d : Double) (s : Server) (dbid : ℕ) (same : Bool) (find : Sds → Option Robj) where
  open d use {F}

  unfoldable pub score_of : List F → Sample → Option F
  score_of boundaries x =
      object_of same find x >>= estimate_object_eviction_score d (lru_clock s) boundaries

  -- The loop over the samples.
  unfoldable pub populate_scored : List F → List Sample → Pool F → Option (Pool F)
  populate_scored boundaries [] pool = some pool
  populate_scored boundaries (x ∷ samples) pool = score_of boundaries x >>= λ score.
      populate_scored boundaries samples (insert_candidate (by_score d) pool x.0 score dbid)

  -- `calculateGlobalStatistics`, as the call has it, is `calculateStatistics`.
  unfoldable pub sampled_objects : List Sample → Option (List Robj)
  sampled_objects [] = some []
  sampled_objects (x ∷ samples) =
      as_object x.1 >>= λ o. sampled_objects samples >>= λ os. some (o ∷ os)

  unfoldable pub eviction_pool_populate_lru_histogram : ℤ → List Sample → Pool F → Option (Pool F)
  eviction_pool_populate_lru_histogram left_over samples pool =
      sampled_objects samples >>= λ objects.
      calculate_statistics d (lru_clock s) objects >>= λ statistics.
      populate_scored (define_window_boundaries d statistics) samples pool >>= λ filled.
      print_pool (pcounter_after left_over samples) filled >>= λ printed. some filled
