-- ===== src/Tests/Cycles.antt =====
-- The theorems on the eviction cycle and on flushing at concrete inputs.
use red_opt.Base.{
  pos, ℕ, ◌+◌, ◌≡◌, refl, List, [], ◌∷◌, true, false, none, some, length, get_elem?, if◌then◌else◌,
  arith, memmove,
}
use red_opt.Server.{Server, volatile_ttl, no_eviction, flag_allkeys}
use red_opt.Object.{Robj}
use red_opt.Memory.{get_maxmemory_state, free_memory_get_not_counted_memory}
use red_opt.Dict.{sds_eq}
use red_opt.Pool.{
  eviction_pool_alloc, alloc_entries, find_slot, make_room, insert_candidate, write_buf,
}
use red_opt.Populate.{idle_of, eviction_pool_populate}
use red_opt.Db.{KeySpace}
use red_opt.Db.Flush.{empty_db_structure, db_total_server_key_count, empty_db_structure-total}
use red_opt.Evict.{scan}
use red_opt.Evict.Cycle.{
  evict_fail, best, Outside, Eviction, key_exists, refill, populate_db, populate_dbs, pick_best,
}
use red_opt.Evict.Cycle.{evict_key, is_safe_to_perform_evictions, perform_evictions, update_metrics}
use red_opt.Evict.Cycle.{pick_random}
use red_opt.Evict.Cycle.Random.{Found, pick_random-Found}
use red_opt.Evict.Cycle.Delete.{pick_best_exists, evict_key-find}
use red_opt.Evict.Cycle.Metrics.{is_over, perform_evictions-exceeded}
use red_opt.Tests.Doubles.{decimals}
use red_opt.Tests.Dicts.{assoc, assoc_find}
use red_opt.Tests.Samples.{server, new_pool}
use red_opt.Tests.Keys.{key_a, key_b, key_space, find_a}

abbrev pub ttl_server : Server
ttl_server = record server { maxmemory_policy = volatile_ttl }

abbrev pub strict_server : Server
strict_server = record server { maxmemory_policy = no_eviction }

-- 2000 bytes are used, and the limit is 1500.
abbrev pub outside : Outside (assoc Robj) (assoc ℕ) decimals
outside = record {
  some_keys = λ n m. m;
  some_times = λ n m. m;
  random_key = λ n m. key_a;
  random_time = λ n m. key_a;
  memory = λ n dbs. record {
    used = 2000;
    maxmemory = 1500;
    repl_buffer_mem = 0;
    repl_backlog_size = 0;
    block_size = 64;
    aof_on = false;
    aof_alloc = 0;
  };
  elapsed_us = λ n. n;
  exceeded_us = λ n. n;
  pending_jobs = λ n. false;
  time_limit = λ n. 0;
  stack_value = λ t. pos 0;
  also_propagate_numops = 0;
  inside_yielding_command = false;
  paused_evict = false;
  slaves = false;
  lazyfree_lazy_eviction = false;
}

abbrev pub start : Eviction (assoc Robj) (assoc ℕ) decimals
start = record {
  dbs = key_space ∷ [];
  pool = new_pool;
  next_db = 0;
  tick = 0;
  stat_evictedkeys = 0;
  flushed = 0;
  proc_running = false;
  timers = 0;
  exceeded = false;
  exceeded_total = 0;
}

-- The key has been written to the first buffer, and its entry is empty again.
abbrev chosen_state : Eviction (assoc Robj) (assoc ℕ) decimals
chosen_state = record start {
  pool = record { entries = new_pool.entries; bufs = write_buf (λ i. []) 0 key_a };
  tick = 1;
}

picked_a :
    pick_best (assoc Robj) (assoc ℕ) decimals 1 outside ttl_server start
    ≡ some (best (0, key_a), chosen_state)
unfolding pick_best populate_dbs populate_db refill eviction_pool_populate idle_of
    eviction_pool_alloc insert_candidate make_room find_slot memmove scan key_exists alloc_entries
    assoc_find sds_eq
picked_a = refl

pick_best_exists_example :
    (key_exists (assoc Robj) (assoc ℕ) decimals (flag_allkeys volatile_ttl) (key_space ∷ []) 0 key_a
      ≡ true)
    × (key_space ∷ [] ≡ start.dbs)
pick_best_exists_example =
    pick_best_exists (assoc Robj) (assoc ℕ) decimals 1 outside ttl_server start picked_a

evict_key-find_example :
    (db' : KeySpace (assoc Robj) (assoc ℕ)) × (get_elem?
        (evict_key (assoc Robj) (assoc ℕ) decimals outside (0, key_a) start).dbs
        0
      ≡ some db')
    × (assoc_find db'.dict key_b
        ≡ (if sds_eq key_a key_b then none else assoc_find key_space.dict key_b))
    × (assoc_find db'.expires key_b
        ≡ (if sds_eq key_a key_b then none else assoc_find key_space.expires key_b))
    × (get_elem? (evict_key (assoc Robj) (assoc ℕ) decimals outside (0, key_a) start).dbs 1
        ≡ get_elem? start.dbs 1)
    × ((evict_key (assoc Robj) (assoc ℕ) decimals outside (0, key_a) start).stat_evictedkeys
        ≡ 0 + 1)
evict_key-find_example =
    evict_key-find (assoc Robj) (assoc ℕ) decimals outside (0, key_a) start key_space refl find_a 1
      key_b (λ e. absurd (omega arith))

safe : is_safe_to_perform_evictions (assoc Robj) (assoc ℕ) decimals outside strict_server ≡ true
unfolding is_safe_to_perform_evictions
safe = refl

pub failed :
    perform_evictions (assoc Robj) (assoc ℕ) decimals 0 outside strict_server start
    ≡ some (evict_fail, record start { exceeded = true })
unfolding perform_evictions is_safe_to_perform_evictions get_maxmemory_state
    free_memory_get_not_counted_memory update_metrics
failed = refl

perform_evictions-exceeded_example :
    (record start { exceeded = true }).exceeded ≡ is_over evict_fail
perform_evictions-exceeded_example =
    perform_evictions-exceeded (assoc Robj) (assoc ℕ) decimals 0 outside strict_server start safe
      failed

empty_db_structure-total_example :
    (dbs : List (KeySpace (assoc Robj) (assoc ℕ))) × (empty_db_structure
        (assoc Robj)
        (assoc ℕ)
        (λ db. record db { dict = []; expires = [] })
        (key_space ∷ key_space ∷ [])
        none
        true
      ≡ some (db_total_server_key_count (assoc Robj) (assoc ℕ) (key_space ∷ key_space ∷ []), dbs))
    × (length dbs ≡ 2)
    × (db_total_server_key_count (assoc Robj) (assoc ℕ) dbs ≡ 0)
empty_db_structure-total_example =
    empty_db_structure-total (assoc Robj) (assoc ℕ) (λ db. record db { dict = []; expires = [] })
      (λ db. refl) true (key_space ∷ key_space ∷ [])

pick_random-Found_example :
    Found
      (assoc Robj)
      (assoc ℕ)
      decimals
      outside
      true
      start
      (pick_random (assoc Robj) (assoc ℕ) decimals 1 outside true start)
pick_random-Found_example =
    pick_random-Found (assoc Robj) (assoc ℕ) decimals outside true start 0 key_space (omega arith)
      refl (λ e. absurd (omega arith)) (omega arith)
