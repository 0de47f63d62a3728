-- ===== src/Clock/Wrap.antt =====
-- How far the clocks of evict.c are off when they have wrapped round.
use red_opt.Base.{ℕ, ◌+◌, ◌-◌, ◌*◌, ◌%◌, ◌^◌, ◌<◌, ◌≡◌, ltb, if◌then◌else◌, arith}
use red_opt.Server.{Server}
use red_opt.Clock.{lru_clock, estimate_object_idle_time, lfu_get_time_in_minutes, lfu_time_elapsed}

-- An object accessed at tick `t` and seen `d` ticks later, fewer than a turn of the 24-bit clock,
-- is reported idle for `d` seconds, in milliseconds, if the clock has not wrapped in between, and
-- for one second less if it has.
pub estimate_object_idle_time_error :
    (s : Server) (t d : ℕ)
    → d < 2 ^ 24
    → lru_clock s ≡ (t + d) % 2 ^ 24
    → estimate_object_idle_time s (t % 2 ^ 24)
      ≡ (if ltb (t % 2 ^ 24 + d) (2 ^ 24) then d * 1000 else (d - 1) * 1000)
unfolding estimate_object_idle_time
estimate_object_idle_time_error s t d h e = ground arith

-- A counter last decremented at minute `t` and seen `d` minutes later, fewer than a turn of the
-- 16-bit minutes, has aged `d` minutes if the minutes have not wrapped in between, and one less
-- if they have.
pub lfu_time_elapsed_error :
    (s : Server) (t d : ℕ)
    → d < 65536
    → lfu_get_time_in_minutes s ≡ (t + d) % 65536
    → lfu_time_elapsed s (t % 65536) ≡ (if ltb (t % 65536 + d) 65536 then d else d - 1)
unfolding lfu_time_elapsed
lfu_time_elapsed_error s t d h e = ground arith
