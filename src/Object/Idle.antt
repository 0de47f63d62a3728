-- ===== src/Object/Idle.antt =====
-- `objectSetLRUOrLFU` (object.c), by which RESTORE and the RDB loader set the age of an object.
use red_opt.Base.{
  ℕ, ◌+◌, ◌-◌, ◌*◌, ◌/◌, ◌%◌, ◌^◌, ◌<◌, ◌≡◌, refl, ◌∙◌, ap, Bool, true, false, Option, none, some,
}
use red_opt.Base.{leb, if◌then◌else◌, arith}
use red_opt.Server.{Server, flag_lfu, lru_clock_max, lru_clock_resolution}
use red_opt.Clock.{lru_clock, lfu_get_time_in_minutes, estimate_object_idle_time}
use red_opt.Object.{Robj, init_or_update_objectt}
use red_opt.Object.History.{IsRobj, history, remember, init_or_update_objectt_room}

-- The idle time in ticks of the clock.
abbrev pub scaled_idle : ℕ → ℕ → ℕ
scaled_idle lru_idle lru_multiplier = lru_idle * lru_multiplier / lru_clock_resolution

-- `lru_abs`, as it is stored in 24 bits: the difference may be negative, also after
-- `LRU_CLOCK_MAX` has been added.
pub absolute_lru : ℕ → ℕ → ℕ
absolute_lru clock idle =
    if leb idle clock
    then (clock - idle) % 2 ^ 24
    else (clock + lru_clock_max + 2 ^ 24 * idle - idle) % 2 ^ 24

-- A negative argument is `none`. The result is the return value with the object, or the failed
-- assertion.
unfoldable pub object_set_lru_or_lfu :
    Server → Robj → Option ℕ → Option ℕ → ℕ → ℕ → Option (Bool × Robj)
object_set_lru_or_lfu s val lfu_freq lru_idle clock lru_multiplier =
    if flag_lfu s.maxmemory_policy
    then (elim lfu_freq [
      | none ↦ some (false, val)
      | some freq ↦
          if leb freq 255
          then some (true, record val { lru = lfu_get_time_in_minutes s * 256 + freq })
          else none
    ])
    else (elim lru_idle [
      | none ↦ some (false, val)
      | some seconds ↦
          let idle = scaled_idle seconds lru_multiplier in
          some (true, init_or_update_objectt (record val { lru = absolute_lru clock idle }) idle)
    ])

lru-init_or_update_objectt : (o : Robj) (now : ℕ) → (init_or_update_objectt o now).lru ≡ o.lru
unfolding init_or_update_objectt
lru-init_or_update_objectt o now = ground arith

absolute_lru-idle :
    (s : Server) (clock idle : ℕ)
    → lru_clock s ≡ clock
    → clock < 2 ^ 24
    → idle < lru_clock_max
    → estimate_object_idle_time s (absolute_lru clock idle) ≡ idle * 1000
unfolding estimate_object_idle_time absolute_lru
absolute_lru-idle s clock idle e h k = ground arith

-- Under a policy that is not LFU, an object that is given an idle time in seconds, shorter than a
-- turn of the clock, is estimated idle for exactly that time at the same clock, also where the
-- clock has wrapped since. But the access that goes into its history (where there is room) is the
-- idle time, not a time of the clock.
pub estimate-object_set_lru_or_lfu :
    (s : Server) (val : Robj) (idle : ℕ)
    → flag_lfu s.maxmemory_policy ≡ false
    → lru_clock s < 2 ^ 24
    → idle < lru_clock_max
    → IsRobj val
    → val.num_accesses < 4
    → (o : Robj) × (object_set_lru_or_lfu s val none (some idle) (lru_clock s) 1000
        ≡ some (true, o))
      × (estimate_object_idle_time s o.lru ≡ idle * 1000)
      × (history o ≡ remember (history val) idle)
unfolding object_set_lru_or_lfu
estimate-object_set_lru_or_lfu s val idle p h k v room =
    let i = scaled_idle idle 1000 in
    let same : i ≡ idle = omega arith in
    let val' = record val { lru = absolute_lru (lru_clock s) i } in
    let o = init_or_update_objectt val' i in
    let laid : IsRobj val' = record { cells = v.cells; counted = v.counted; room = v.room } in
    let (recorded, more, laid') = init_or_update_objectt_room val' i laid room in
    let small : i % 2 ^ 24 ≡ idle = omega arith in
    (
      o,
      rw p,
      rw (lru-init_or_update_objectt val' i, same)
          (absolute_lru-idle s (lru_clock s) idle refl h k),
      recorded ∙ ap (remember (history val)) small,
    )
