-- ===== src/Memory.antt =====
-- The memory accounting of evict.c: what counts as used, whether the limit is passed, and how much
-- is to be freed.
use red_opt.Base.{ℕ, ◌+◌, ◌-◌, ◌*◌, ◌/◌, ◌%◌, ◌^◌, ◌≤◌, ◌<◌, ◌≡◌, ◌↔◌, Bool, true, false, not, ◌&&◌}
use red_opt.Base.{Option, none, some, ltb, leb, ◌==◌, if◌then◌else◌, arith}

-- What the functions read: `used` is `zmalloc_used_memory()`, `block_size` is the size of a
-- `replBufBlock` with its list node, `aof_alloc` the size of the AOF buffer.
pub record Memory : Type 0 where
  pub used : ℕ
  pub maxmemory : ℕ
  pub repl_buffer_mem : ℕ
  pub repl_backlog_size : ℕ
  pub block_size : ℕ
  pub aof_on : Bool
  pub aof_alloc : ℕ

-- `PROTO_REPLY_CHUNK_BYTES`
abbrev pub chunk_bytes : ℕ
chunk_bytes = 16 * 1024

abbrev counted_mem : Memory → ℕ
counted_mem m =
    (m.repl_backlog_size + (m.repl_backlog_size / chunk_bytes + 1) * m.block_size) % 2 ^ 64

unfoldable pub free_memory_get_not_counted_memory : Memory → ℕ
free_memory_get_not_counted_memory m =
    let replicas =
      if ltb m.repl_backlog_size m.repl_buffer_mem
      then (if ltb (counted_mem m) m.repl_buffer_mem then m.repl_buffer_mem - counted_mem m else 0)
      else 0 in
    if m.aof_on then (replicas + m.aof_alloc) % 2 ^ 64 else replicas

-- The bytes used, less what is not counted.
abbrev pub counted_used : Memory → ℕ
counted_used m =
    let overhead = free_memory_get_not_counted_memory m in
    if ltb overhead m.used then m.used - overhead else 0

-- What `getMaxmemoryState` returns: `over` is C_ERR. The level is the quotient of two numbers;
-- `logical` and `tofree` are set with C_ERR only.
pub record MaxmemoryState : Type 0 where
  pub over : Bool
  pub total : ℕ
  pub logical : Option ℕ
  pub tofree : Option ℕ
  pub level : Option (ℕ × ℕ)

-- `return C_OK`
abbrev below_limit : Memory → Option (ℕ × ℕ) → MaxmemoryState
below_limit m level = record {
  over = false;
  total = m.used;
  logical = none;
  tofree = none;
  level = level;
}

unfoldable pub get_maxmemory_state : Memory → Bool → MaxmemoryState
get_maxmemory_state m want_level =
    let level = if want_level then some (counted_used m, m.maxmemory) else none in
    if m.maxmemory == 0
    then below_limit m (if want_level then some (0, 1) else none)
    else if leb m.used m.maxmemory && not want_level
    then below_limit m none
    else if leb m.used m.maxmemory
    then below_limit m level
    else if leb (counted_used m) m.maxmemory
    then below_limit m level
    else record {
      over = true;
      total = m.used;
      logical = some (counted_used m);
      tofree = some (counted_used m - m.maxmemory);
      level = level;
    }

unfoldable pub over_maxmemory_after_alloc : Memory → ℕ → Bool
over_maxmemory_after_alloc m moremem =
    if m.maxmemory == 0
    then false
    else if leb ((m.used + moremem) % 2 ^ 64) m.maxmemory
    then false
    else ltb m.maxmemory ((counted_used m + moremem) % 2 ^ 64)

-- `none` is a failed assertion; `pow` is `(unsigned long) (500.0 * pow(1.15, n))`.
unfoldable pub eviction_time_limit_us : (ℕ → ℕ) → ℕ → Option ℕ
eviction_time_limit_us pow tenacity =
    if ltb 100 tenacity
    then none
    else if leb tenacity 10
    then some (50 * tenacity)
    else if ltb tenacity 100
    then some (pow (tenacity - 10))
    else some (2 ^ 64 - 1)

-- `getMaxmemoryState` reports C_ERR exactly when there is a limit and the counted memory is above
-- it; whether the level is asked for makes no difference to that. The bytes to free are what the
-- counted memory has above the limit, and are set with C_ERR only; so is the logical memory.
pub get_maxmemory_state-over :
    (m : Memory) (want_level : Bool)
    → (((get_maxmemory_state m want_level).over ≡ true)
        ↔ ((0 < m.maxmemory) × (m.maxmemory < m.used - free_memory_get_not_counted_memory m)))
      × ((get_maxmemory_state m want_level).logical ≡ (
          if (get_maxmemory_state m want_level).over
          then some (m.used - free_memory_get_not_counted_memory m)
          else none))
      × ((get_maxmemory_state m want_level).tofree ≡ (
          if (get_maxmemory_state m want_level).over
          then some (m.used - free_memory_get_not_counted_memory m - m.maxmemory)
          else none))
unfolding get_maxmemory_state
get_maxmemory_state-over m want_level =
    ((λ h. ground arith, λ h. ground arith), ground arith, ground arith)

-- When the bytes that `getMaxmemoryState` asks for have been freed, and what is not counted has
-- not become less, the limit is kept.
pub freed_is_enough :
    (m m' : Memory) {tofree : ℕ}
    → (get_maxmemory_state m false).tofree ≡ some tofree
    → m'.maxmemory ≡ m.maxmemory
    → free_memory_get_not_counted_memory m ≤ free_memory_get_not_counted_memory m'
    → m'.used + tofree ≤ m.used
    → (get_maxmemory_state m' false).over ≡ false
unfolding get_maxmemory_state
freed_is_enough m m' e h k l = ground arith

-- An allocation is refused exactly when there is a limit and the counted memory together with the
-- allocation passes it, for sums that fit a `size_t`.
pub over_maxmemory_after_alloc_iff :
    (m : Memory) (moremem : ℕ)
    → m.used + moremem < 2 ^ 64
    → (over_maxmemory_after_alloc m moremem ≡ true) ↔ (
        (0 < m.maxmemory) × (m.maxmemory < m.used - free_memory_get_not_counted_memory m + moremem))
unfolding over_maxmemory_after_alloc
over_maxmemory_after_alloc_iff m moremem h = (λ k. ground arith, λ k. ground arith)
