-- ===== src/Clock.antt =====
-- The clocks of evict.c: the LRU clock in ticks of a second, the LFU clock in minutes.
pub mod Wrap
use red_opt.Base.{ℕ, ◌+◌, ◌-◌, ◌*◌, ◌/◌, ◌%◌, ◌^◌, ◌<◌, ◌≡◌, leb, if◌then◌else◌, arith}
use red_opt.Server.{Server, lru_clock_max, lru_clock_resolution}

-- The mask `LRU_CLOCK_MAX` keeps the low 24 bits.
pub get_lru_clock : Server → ℕ
get_lru_clock s = s.mstime / lru_clock_resolution % 2 ^ 24

unfoldable pub lru_clock : Server → ℕ
lru_clock s = if leb (1000 / s.hz) lru_clock_resolution then s.lruclock else get_lru_clock s

-- `estimateObjectIdleTime`, over the object's `lru` field.
unfoldable pub estimate_object_idle_time : Server → ℕ → ℕ
estimate_object_idle_time s lru =
    let lruclock = lru_clock s in
    if leb lru lruclock
    then (lruclock - lru) * lru_clock_resolution
    else (lruclock + (lru_clock_max - lru)) * lru_clock_resolution

unfoldable pub lfu_get_time_in_minutes : Server → ℕ
lfu_get_time_in_minutes s = s.unixtime / 60 % 65536

unfoldable pub lfu_time_elapsed : Server → ℕ → ℕ
lfu_time_elapsed s ldt =
    let now = lfu_get_time_in_minutes s in if leb ldt now then now - ldt else 65535 - ldt + now

-- The LRU clock that the server refreshes is the one in use at every legal `hz`.
pub lru_clock-eq-lruclock : (s : Server) → 0 < s.hz → lru_clock s ≡ s.lruclock
unfolding lru_clock
lru_clock-eq-lruclock s h = ground arith
