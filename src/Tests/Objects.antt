-- ===== src/Tests/Objects.antt =====
-- The theorems on clocks and objects at concrete inputs.
use red_opt.Base.{ℕ, ◌+◌, ◌-◌, ◌*◌, ◌/◌, ◌%◌, ◌^◌, ◌≡◌, refl, [], ◌∷◌, true, none, some}
use red_opt.Base.{ltb, if◌then◌else◌, arith}
use red_opt.Server.{Server}
use red_opt.Clock.{
  lru_clock, lru_clock-eq-lruclock, estimate_object_idle_time, lfu_get_time_in_minutes,
  lfu_time_elapsed,
}
use red_opt.Clock.Wrap.{estimate_object_idle_time_error, lfu_time_elapsed_error}
use red_opt.Object.{Robj, update_lru_histogram, init_or_update_objectt}
use red_opt.Object.History.{history, remember, clocks, touch_all, update_lru_histogram_full}
use red_opt.Object.History.{init_or_update_objectt_full, touch_all-history}
use red_opt.Object.Idle.{object_set_lru_or_lfu, estimate-object_set_lru_or_lfu}
use red_opt.Lfu.{Grown, lfu_periods, update_lfu, update_lfu-lru}
use red_opt.Tests.Doubles.{decimals}
use red_opt.Tests.Samples.{
  server, later, twice_used, often_used, twice_used-IsRobj, often_used-IsRobj,
}

-- One second after the clock has wrapped, the object was last used three seconds ago.
abbrev wrapped : Server
wrapped = record server { lruclock = 1 }

clock_at : (n : ℕ) → lru_clock (record server { lruclock = n }) ≡ n
clock_at n = lru_clock-eq-lruclock (record server { lruclock = n }) (omega arith)

lru_clock-eq-lruclock_example : lru_clock server ≡ 1000
lru_clock-eq-lruclock_example = lru_clock-eq-lruclock server (omega arith)

estimate_object_idle_time_error_example :
    estimate_object_idle_time wrapped (16777214 % 2 ^ 24)
    ≡ (if ltb (16777214 % 2 ^ 24 + 3) (2 ^ 24) then 3 * 1000 else (3 - 1) * 1000)
estimate_object_idle_time_error_example =
    estimate_object_idle_time_error wrapped 16777214 3 (omega arith) (clock_at 1)

minutes_100 : lfu_get_time_in_minutes server ≡ (98 + 2) % 65536
unfolding lfu_get_time_in_minutes
minutes_100 = refl

lfu_time_elapsed_error_example :
    lfu_time_elapsed server (98 % 65536) ≡ (if ltb (98 % 65536 + 2) 65536 then 2 else 2 - 1)
lfu_time_elapsed_error_example = lfu_time_elapsed_error server 98 2 (omega arith) minutes_100

update_lru_histogram_full_example :
    ((update_lru_histogram server often_used).access_times
      ≡ remember (history often_used) (lru_clock server % 2 ^ 24))
    × ((update_lru_histogram server often_used).num_accesses ≡ 7)
update_lru_histogram_full_example =
    update_lru_histogram_full server often_used often_used-IsRobj refl

init_or_update_objectt_full_example :
    ((init_or_update_objectt often_used 1000).access_times ≡ often_used.access_times)
    × ((init_or_update_objectt often_used 1000).num_accesses ≡ 233)
init_or_update_objectt_full_example =
    init_or_update_objectt_full often_used 1000 often_used-IsRobj refl

touch_all-history_example :
    (history (touch_all (server ∷ later ∷ []) twice_used)
      ≡ 700 ∷ 800 ∷ clocks (server ∷ later ∷ []))
    × ((touch_all (server ∷ later ∷ []) twice_used).num_accesses ≡ 4)
touch_all-history_example =
    touch_all-history (server ∷ later ∷ []) twice_used twice_used-IsRobj (omega arith)

estimate-object_set_lru_or_lfu_example :
    (o : Robj) × (object_set_lru_or_lfu server twice_used none (some 300) (lru_clock server) 1000
      ≡ some (true, o))
    × (estimate_object_idle_time server o.lru ≡ 300 * 1000)
    × (history o ≡ remember (history twice_used) 300)
estimate-object_set_lru_or_lfu_example =
    estimate-object_set_lru_or_lfu server twice_used 300 refl (omega (arith, clock_at 1000))
      (omega arith) twice_used-IsRobj (omega arith)

update_lfu-lru_example :
    ((update_lfu decimals 5 100 server twice_used).lru / 256 ≡ lfu_get_time_in_minutes server)
    × Grown decimals 5 100 server.lfu_log_factor
        (900 % 256 - lfu_periods server (900 / 256))
        ((update_lfu decimals 5 100 server twice_used).lru % 256)
update_lfu-lru_example = update_lfu-lru decimals 5 100 server twice_used
