-- ===== src/Server.antt =====
-- The part of `struct redisServer` (server.h) that the modelled code reads, and the policy bits.
use red_opt.Base.{ℕ, ◌+◌, ◌*◌, ◌/◌, ◌%◌, Bool, ◌==◌}

-- Durations and sizes are numbers; `masterhost` is true where the pointer is not NULL.
pub record Server : Type 0 where
  pub hz : ℕ
  pub lruclock : ℕ
  pub mstime : ℕ
  pub unixtime : ℕ
  pub maxmemory : ℕ
  pub maxmemory_policy : ℕ
  pub maxmemory_samples : ℕ
  pub maxmemory_eviction_tenacity : ℕ
  pub lfu_log_factor : ℕ
  pub lfu_decay_time : ℕ
  pub loading : Bool
  pub masterhost : Bool
  pub repl_slave_ro : Bool
  pub repl_slave_ignore_maxmemory : Bool
  pub lazy_expire_disabled : Bool

-- The bits of a policy word, `MAXMEMORY_FLAG_LRU` to `MAXMEMORY_FLAG_LRU_HISTOGRAM`.
abbrev pub flag_lru : ℕ → Bool
flag_lru policy = policy % 2 == 1

abbrev pub flag_lfu : ℕ → Bool
flag_lfu policy = policy / 2 % 2 == 1

abbrev pub flag_allkeys : ℕ → Bool
flag_allkeys policy = policy / 4 % 2 == 1

abbrev pub flag_lru_histogram : ℕ → Bool
flag_lru_histogram policy = policy / 8 % 2 == 1

abbrev pub volatile_lru : ℕ
volatile_lru = 1

abbrev pub volatile_lfu : ℕ
volatile_lfu = 256 + 2

abbrev pub volatile_ttl : ℕ
volatile_ttl = 2 * 256

abbrev pub volatile_random : ℕ
volatile_random = 3 * 256

abbrev pub allkeys_lru : ℕ
allkeys_lru = 4 * 256 + 1 + 4

abbrev pub allkeys_lfu : ℕ
allkeys_lfu = 5 * 256 + 2 + 4

abbrev pub allkeys_random : ℕ
allkeys_random = 6 * 256 + 4

abbrev pub no_eviction : ℕ
no_eviction = 7 * 256

abbrev pub allkeys_lru_histogram : ℕ
allkeys_lru_histogram = 8 * 256 + 8 + 1 + 4

-- `LRU_BITS`, `LRU_CLOCK_MAX` and `LRU_CLOCK_RESOLUTION`.
abbrev pub lru_bits : ℕ
lru_bits = 24

abbrev pub lru_clock_max : ℕ
lru_clock_max = 16777215

abbrev pub lru_clock_resolution : ℕ
lru_clock_resolution = 1000

-- `HISTORY_SIZE`, `NUM_WINDOWS` and `LFU_INIT_VAL`.
abbrev pub history_size : ℕ
history_size = 4

abbrev pub num_windows : ℕ
num_windows = 5

abbrev pub lfu_init_val : ℕ
lfu_init_val = 5
