-- ===== src/Evict/Cycle.antt =====
-- `performEvictions` and its helpers (evict.c). What the code asks of the allocator, the clock, the
-- sampling of dictionaries and the other threads is a parameter, asked at a tick that every such
-- call moves on.
pub mod Delete
pub mod Metrics
pub mod Random
pub mod Shrink
pub mod Refills
pub mod Picks
pub mod Effect
pub mod Returns
use red_opt.Base.{
  ℕ, zero, suc, ◌+◌, ◌-◌, ◌*◌, ◌/◌, ◌%◌, ◌^◌, List, [], ◌∷◌, map, Bool, true, false, not, ◌&&◌,
  ◌||◌,
}
use red_opt.Base.{ℤ, Option, none, some, get_elem?, modify, length, ltb, ◌>>=◌, ◌==◌, if◌then◌else◌}
use red_opt.Server.{
  Server, flag_lru, flag_lfu, flag_allkeys, flag_lru_histogram, volatile_ttl, allkeys_random,
  volatile_random, no_eviction,
}
use red_opt.Double.{Double}
use red_opt.Object.{Robj}
use red_opt.Pool.{Sds, Pool, pool_size}
use red_opt.Populate.{
  Sample, value, expire, eviction_pool_populate, eviction_pool_populate_lru_histogram,
}
use red_opt.Memory.{Memory, get_maxmemory_state, eviction_time_limit_us}
use red_opt.Dict.{DictApi}
use red_opt.Db.{
  KeySpace, emit, db_generic_delete, signal_modified_key, notify_evicted, propagate_deletion,
}
use red_opt.Evict.{Target, scan}

-- EVICT_OK, EVICT_RUNNING and EVICT_FAIL.
pub data Result : Type 0 where
  evict_ok : Result
  evict_running : Result
  evict_fail : Result

-- `bestkey` with its database, no key to evict, or the loop around the scan not at its end.
pub data Choice : Type 0 where
  no_key : Choice
  best : Target → Choice
  unfinished : Choice

-- How the eviction loop ends: by its condition or a break, by `goto cant_free`, or not yet.
pub data Ending : Type 0 where
  enough : Ending
  cant_free : Ending
  going_on : Ending

-- `mem_freed` is `freed` less `grown`, so that it may be negative.
pub record Progress : Type 0 where
  pub freed : ℕ
  pub grown : ℕ
  pub keys_freed : ℕ

abbrev pub account : Progress → ℕ → ℕ → Progress
account p before after = record {
  freed = p.freed + (before - after);
  grown = p.grown + (after - before);
  keys_freed = p.keys_freed + 1;
}

abbrev pub is_some : {A : Type 0} → Option A → Bool
is_some none = false
is_some (some a) = true

-- By access, frequency, score or time to live; at random.
abbrev pub uses_pool : ℕ → Bool
uses_pool policy =
    (flag_lru policy || (flag_lfu policy || flag_lru_histogram policy)) || policy == volatile_ttl

abbrev pub is_random : ℕ → Bool
is_random policy = policy == allkeys_random || policy == volatile_random

module _ (keys : DictApi Robj) (times : DictApi ℕ) (d : Double) where
  open d use {F, of_ℕ}

  pub record Outside : Type 0 where
    pub some_keys : ℕ → keys.Dict → List (Sds × Robj)
    pub some_times : ℕ → times.Dict → List (Sds × ℕ)
    pub random_key : ℕ → keys.Dict → Sds
    pub random_time : ℕ → times.Dict → Sds
    pub memory : ℕ → List (KeySpace keys times) → Memory
    -- What the memory of a variable holds that is not initialised.
    pub stack_value : ℕ → ℤ
    pub elapsed_us : ℕ → ℕ
    pub exceeded_us : ℕ → ℕ
    pub pending_jobs : ℕ → Bool
    pub time_limit : ℕ → ℕ
    pub also_propagate_numops : ℕ
    pub inside_yielding_command : Bool
    pub paused_evict : Bool
    pub slaves : Bool
    pub lazyfree_lazy_eviction : Bool

  -- The databases, the pool, the static variables and the statistics. `flushed` counts the calls
  -- of `flushSlavesOutputBuffers`, `timers` those of `aeCreateTimeEvent`; `exceeded` is whether
  -- the time is running that the memory has been above the limit, `exceeded_total` the time of the
  -- runs that are over.
  pub record Eviction : Type 0 where
    pub dbs : List (KeySpace keys times)
    pub pool : Pool F
    pub next_db : ℕ
    pub tick : ℕ
    pub stat_evictedkeys : ℕ
    pub flushed : ℕ
    pub proc_running : Bool
    pub timers : ℕ
    pub exceeded : Bool
    pub exceeded_total : ℕ

  unfoldable pub is_safe_to_perform_evictions : Outside → Server → Bool
  is_safe_to_perform_evictions out s =
      if out.inside_yielding_command || s.loading
      then false
      else if s.masterhost && s.repl_slave_ignore_maxmemory
      then false
      else if out.paused_evict
      then false
      else true

  abbrev pub dict_size : Bool → KeySpace keys times → ℕ
  dict_size all db = if all then keys.size db.dict else times.size db.expires

  abbrev pub samples_of : Outside → Bool → ℕ → KeySpace keys times → List Sample
  samples_of out all tick db =
      if all
      then map (λ x. (x.0, value x.1)) (out.some_keys tick db.dict)
      else map (λ x. (x.0, expire x.1)) (out.some_times tick db.expires)

  -- The call for one database.
  unfoldable pub refill : Outside → Server → ℕ → KeySpace keys times → Eviction → Option (Pool F)
  refill out s i db st =
      let all = flag_allkeys s.maxmemory_policy in
      let samples = samples_of out all st.tick db in
      if flag_lru_histogram s.maxmemory_policy
      then eviction_pool_populate_lru_histogram d s i all (keys.find db.dict)
          (out.stack_value st.tick) samples st.pool
      else eviction_pool_populate s i all (keys.find db.dict) samples st.pool

  unfoldable pub populate_db :
      Outside → Server → ℕ → KeySpace keys times → Eviction → Option Eviction
  populate_db out s i db st =
      if dict_size (flag_allkeys s.maxmemory_policy) db == 0
      then some st
      else (refill out s i db st >>= λ pool. some (record st { pool = pool; tick = st.tick + 1 }))

  -- The loop over the databases from `i` on, with `total_keys`.
  unfoldable pub populate_dbs :
      Outside → Server → ℕ → List (KeySpace keys times) → ℕ → Eviction → Option (ℕ × Eviction)
  populate_dbs out s i [] total st = some (total, st)
  populate_dbs out s i (db ∷ dbs) total st = populate_db out s i db st >>= λ st'.
      populate_dbs out s (i + 1) dbs (total + dict_size (flag_allkeys s.maxmemory_policy) db) st'

  -- Whether `de` is found.
  unfoldable pub key_exists : Bool → List (KeySpace keys times) → ℕ → Sds → Bool
  key_exists all dbs dbid key = elim (get_elem? dbs dbid) [
    | none ↦ false
    | some db ↦ if all then is_some (keys.find db.dict key) else is_some (times.find db.expires key)
  ]

  -- `while (bestkey == NULL)`, with the rounds left.
  unfoldable pub pick_best : ℕ → Outside → Server → Eviction → Option (Choice × Eviction)
  pick_best zero out s st = some (unfinished, st)
  pick_best (suc n) out s st = populate_dbs out s 0 st.dbs 0 st >>= λ populated.
      let st' = populated.1 in
      let exists = key_exists (flag_allkeys s.maxmemory_policy) st'.dbs in
      let (found, es) = scan (of_ℕ 0) st'.pool.bufs exists pool_size st'.pool.entries in
      let left = record st' { pool = record { entries = es; bufs = st'.pool.bufs } } in
      let again = pick_best n out s left in
      if populated.0 == 0
      then some (no_key, st')
      else (elim found [ none ↦ again | some t ↦ some (best t, left) ])

  -- The key that `dictGetRandomKey` gives.
  abbrev pub random_of : Outside → Bool → ℕ → KeySpace keys times → Sds
  random_of out all tick db =
      if all then out.random_key tick db.dict else out.random_time tick db.expires

  -- The loop over the databases, with the rounds left.
  unfoldable pub pick_random : ℕ → Outside → Bool → Eviction → Choice × Eviction
  pick_random zero out all st = (no_key, st)
  pick_random (suc n) out all st =
      let next = (st.next_db + 1) % 2 ^ 32 in
      let j = next % length st.dbs in
      let later = pick_random n out all (record st { next_db = next }) in
      elim (get_elem? st.dbs j) [
        | none ↦ later
        | some db ↦ if dict_size all db == 0 then later else (
          best (j, random_of out all st.tick db),
          record st { next_db = next; tick = st.tick + 1 },
        )
      ]

  unfoldable pub pick : ℕ → Outside → Server → Eviction → Option (Choice × Eviction)
  pick fuel out s st =
      if uses_pool s.maxmemory_policy
      then pick_best fuel out s st
      else if is_random s.maxmemory_policy
      then some (pick_random (length st.dbs) out (s.maxmemory_policy == allkeys_random) st)
      else some (no_key, st)

  -- What the removal of the key does to its database.
  unfoldable pub evict_from : Bool → Sds → KeySpace keys times → KeySpace keys times
  evict_from lazy key db = emit keys times (propagate_deletion key lazy) (
      emit keys times (notify_evicted key)
        (emit keys times (signal_modified_key key) (db_generic_delete keys times db key).1))

  unfoldable pub evict_key : Outside → Target → Eviction → Eviction
  evict_key out t st = record st {
    dbs = modify t.0 (evict_from out.lazyfree_lazy_eviction t.1) st.dbs;
    stat_evictedkeys = st.stat_evictedkeys + 1;
    tick = st.tick + 1;
  }

  abbrev pub memory_at : Outside → Eviction → Memory
  memory_at out st = out.memory st.tick st.dbs

  unfoldable pub start_eviction_time_proc : Eviction → Eviction
  start_eviction_time_proc st =
      if st.proc_running then st else record st { proc_running = true; timers = st.timers + 1 }

  -- What happens after every sixteenth key: `none` goes on.
  unfoldable pub after_batch : Outside → ℕ → Eviction → Option Eviction × Eviction
  after_batch out limit st =
      let flushed = if out.slaves then record st { flushed = st.flushed + 1 } else st in
      if out.lazyfree_lazy_eviction && not (get_maxmemory_state (memory_at out flushed) false).over
      then (some flushed, flushed)
      else if ltb limit (out.elapsed_us flushed.tick)
      then (some (start_eviction_time_proc flushed), flushed)
      else (none, flushed)

  -- `while (mem_freed < (long long)mem_tofree)`, with the rounds left.
  unfoldable pub evict_loop :
      ℕ → Outside → Server → ℕ → ℕ → Progress → Eviction → Option (Ending × Eviction)
  evict_loop zero out s limit tofree p st = some (going_on, st)
  evict_loop (suc n) out s limit tofree p st =
      if not (ltb p.freed (tofree + p.grown))
      then some (enough, st)
      else (pick (suc n) out s st >>= λ picked. elim picked.0 [
        | no_key ↦ some (cant_free, picked.1)
        | unfinished ↦ some (going_on, picked.1)
        | best t ↦
            let gone = evict_key out t picked.1 in
            let p' = account p (memory_at out picked.1).used (memory_at out gone).used in
            let (stop, flushed) = after_batch out limit gone in
            let on = evict_loop n out s limit tofree p' gone in
            let on_flushed = evict_loop n out s limit tofree p' flushed in
            if p'.keys_freed % 16 == 0
            then (elim stop [ some st' ↦ some (enough, st') | none ↦ on_flushed ])
            else on
      ])

  -- The wait for the lazyfree thread, with the rounds left: whether the limit is kept again.
  -- `none` is a wait that is not at its end.
  unfoldable pub wait_lazyfree : ℕ → Outside → ℕ → Eviction → Option (Bool × Eviction)
  wait_lazyfree zero out limit st = none
  wait_lazyfree (suc n) out limit st =
      let slept = wait_lazyfree n out limit (record st { tick = st.tick + 1 }) in
      if out.pending_jobs st.tick && ltb (out.elapsed_us st.tick) limit
      then (if not (get_maxmemory_state (memory_at out st) false).over
          then some (true, st)
          else slept)
      else some (false, st)

  -- From the label `update_metrics` on. `since` is the time that has passed since the limit was
  -- first seen passed.
  unfoldable pub update_metrics : ℕ → Result → Eviction → Eviction
  update_metrics since evict_ok st =
      if st.exceeded
      then record st { exceeded = false; exceeded_total = st.exceeded_total + since }
      else st
  update_metrics since evict_running st = record st { exceeded = true }
  update_metrics since evict_fail st = record st { exceeded = true }

  -- The result after the loop, with the wait where nothing is left to evict. `none` is a loop that
  -- is not at its end.
  unfoldable pub conclude : ℕ → Outside → ℕ → Ending → Eviction → Option (Result × Eviction)
  conclude fuel out limit enough st = some (if st.proc_running then evict_running else evict_ok, st)
  conclude fuel out limit cant_free st = wait_lazyfree fuel out limit st >>= λ waited.
      some (if waited.0 then evict_ok else evict_fail, waited.1)
  conclude fuel out limit going_on st = none

  abbrev pub with_metrics : Outside → Result × Eviction → Result × Eviction
  with_metrics out r = (r.0, update_metrics (out.exceeded_us r.1.tick) r.0 r.1)

  -- `serverAssert(server.also_propagate.numops == 0)`
  abbrev pub assert_no_propagation : Outside → Option ℕ
  assert_no_propagation out = if out.also_propagate_numops == 0 then some 0 else none

  -- `none` is a failed assertion, a panic, a read outside an array, or a loop that is not at its
  -- end.
  unfoldable pub perform_evictions : ℕ → Outside → Server → Eviction → Option (Result × Eviction)
  perform_evictions fuel out s st =
      if not (is_safe_to_perform_evictions out s)
      then some (evict_ok, st)
      else if not (get_maxmemory_state (memory_at out st) false).over
      then some (with_metrics out (evict_ok, st))
      else if s.maxmemory_policy == no_eviction
      then some (with_metrics out (evict_fail, st))
      else ((get_maxmemory_state (memory_at out st) false).tofree >>= λ tofree.
          eviction_time_limit_us out.time_limit s.maxmemory_eviction_tenacity >>= λ limit.
          assert_no_propagation out >>= λ asserted.
          evict_loop fuel out s limit tofree (record { freed = 0; grown = 0; keys_freed = 0 }) st
          >>= λ ended. conclude fuel out limit ended.0 ended.1 >>= λ r. some (with_metrics out r))

  -- `evictionTimeProc`: whether the time event is to be called again.
  pub eviction_time_proc : ℕ → Outside → Server → Eviction → Option (Bool × Eviction)
  eviction_time_proc fuel out s st = perform_evictions fuel out s st >>= λ r. elim r.0 [
    | evict_running ↦ some (true, r.1)
    | evict_ok ↦ some (false, record r.1 { proc_running = false })
    | evict_fail ↦ some (false, record r.1 { proc_running = false })
  ]
