-- ===== src/Lfu.antt =====
-- The LFU counter: `LFULogIncr`, `LFUDecrAndReturn` (evict.c) and `updateLFU` (db.c). The 24 bits
-- of `lru` hold minutes in the upper 16 and the counter in the lower 8.
use red_opt.Base.{ℕ, ◌+◌, ◌-◌, ◌*◌, ◌/◌, ◌%◌, ◌^◌, ◌<◌, ◌≡◌, ◌⊎◌, arith}
use red_opt.Base.{refl, sym, ap, true, false, inl, inr, Bool-cases, ltb, ◌==◌, if◌then◌else◌}
use red_opt.Server.{Server, lfu_init_val}
use red_opt.Clock.{lfu_get_time_in_minutes, lfu_time_elapsed}
use red_opt.Double.{Double}
use red_opt.Object.{Robj}

abbrev pub lfu_periods : Server → ℕ → ℕ
lfu_periods s ldt = if s.lfu_decay_time == 0 then 0 else lfu_time_elapsed s ldt / s.lfu_decay_time

unfoldable pub lfu_decr_and_return : Server → Robj → ℕ
lfu_decr_and_return s o =
    let counter = o.lru % 256 in
    let num_periods = lfu_periods s (o.lru / 256) in
    if num_periods == 0
    then counter
    else if ltb counter num_periods
    then 0
    else counter - num_periods

module _ (d : Double) where
  open d use {F, of_ℕ, lit, add, sub, mul, div, lt}

  -- The probability of an increment.
  abbrev incr_probability : ℕ → ℕ → F
  incr_probability log_factor counter =
      let baseval = sub (of_ℕ counter) (of_ℕ lfu_init_val) in
      div (lit 1 0)
        (add (mul (if lt baseval (of_ℕ 0) then of_ℕ 0 else baseval) (of_ℕ log_factor)) (of_ℕ 1))

  -- `rand` is what `rand()` returns, `rand_max` the constant `RAND_MAX`.
  unfoldable pub lfu_log_incr : ℕ → ℕ → ℕ → ℕ → ℕ
  lfu_log_incr rand rand_max log_factor counter =
      if counter == 255
      then 255
      else if lt (div (of_ℕ rand) (of_ℕ rand_max)) (incr_probability log_factor counter)
      then (counter + 1) % 256
      else counter

  unfoldable pub update_lfu : ℕ → ℕ → Server → Robj → Robj
  update_lfu rand rand_max s o =
      let counter = lfu_log_incr rand rand_max s.lfu_log_factor (lfu_decr_and_return s o % 256) in
      record o { lru = (lfu_get_time_in_minutes s * 256 + counter) % 2 ^ 24 }

  -- `LFUDecrAndReturn` takes the elapsed periods off the counter and stops at 0.
  decayed :
      (s : Server) (o : Robj) → lfu_decr_and_return s o ≡ o.lru % 256 - lfu_periods s (o.lru / 256)
  unfolding lfu_decr_and_return
  decayed s o = ground arith

  -- The chance of a counter to grow falls with what it has above the initial value.
  abbrev pub chance : ℕ → ℕ → F
  chance log_factor counter =
      div (lit 1 0) (add (mul (of_ℕ (counter - lfu_init_val)) (of_ℕ log_factor)) (of_ℕ 1))

  above_init :
      (c : ℕ)
      → c < 256
      → (if lt (sub (of_ℕ c) (of_ℕ lfu_init_val)) (of_ℕ 0)
          then of_ℕ 0
          else sub (of_ℕ c) (of_ℕ lfu_init_val))
        ≡ of_ℕ (c - lfu_init_val)
  above_init c h = elim (Bool-cases (ltb c lfu_init_val)) [
    | inl low ↦
        let none_above : c - lfu_init_val ≡ 0 = ground arith in
        rw (d.sub_below c lfu_init_val (ground arith) (omega arith)) (ap of_ℕ (sym none_above))
    | inr high ↦
        let exact = d.sub_of_ℕ c lfu_init_val (ground arith) (omega arith) in
        let at_least_0 =
          d.not_lt_of_le (of_ℕ 0) (of_ℕ (c - lfu_init_val))
            (d.le-of_ℕ 0 (c - lfu_init_val) (omega arith)) in
        rw (exact, at_least_0) refl
  ]

  probability-chance : (f c : ℕ) → c < 256 → incr_probability f c ≡ chance f c
  probability-chance f c h =
      ap (λ b. div (lit 1 0) (add (mul b (of_ℕ f)) (of_ℕ 1))) (above_init c h)

  -- A counter below 255 grows by one where the draw is below its chance; otherwise it stays.
  abbrev pub Grown : ℕ → ℕ → ℕ → ℕ → ℕ → Type 0
  Grown rand rand_max f c c' =
      ((c < 255) × (lt (div (of_ℕ rand) (of_ℕ rand_max)) (chance f c) ≡ true) × (c' ≡ c + 1))
      ⊎ (((c ≡ 255) ⊎ (lt (div (of_ℕ rand) (of_ℕ rand_max)) (chance f c) ≡ false)) × (c' ≡ c))

  log_incr-Grown :
      (rand rand_max f c : ℕ) → c < 256 → Grown rand rand_max f c (lfu_log_incr rand rand_max f c)
  unfolding lfu_log_incr
  log_incr-Grown rand rand_max f c h = elim (Bool-cases (c == 255)) [
    | inl top ↦ let full : c ≡ 255 = ground arith in rw top (inr (inl full, sym full))
    | inr below ↦
        let room : c < 255 = ground arith in
        elim (Bool-cases (lt (div (of_ℕ rand) (of_ℕ rand_max)) (chance f c))) [
          | inl drawn ↦ rw (below, probability-chance f c h, drawn) (inl (room, refl, omega arith))
          | inr missed ↦ rw (below, probability-chance f c h, missed) (inr (inr refl, refl))
        ]
  ]

  Grown-bound : (rand rand_max f c c' : ℕ) → c < 256 → Grown rand rand_max f c c' → c' < 256
  Grown-bound rand rand_max f c c' h (inl (room, drawn, more)) = omega arith
  Grown-bound rand rand_max f c c' h (inr (why, same)) = omega arith

  minutes_bound : (s : Server) → lfu_get_time_in_minutes s < 65536
  unfolding lfu_get_time_in_minutes
  minutes_bound s = omega arith

  -- `updateLFU` leaves the current minutes in the upper 16 bits. The counter in the lower 8 is
  -- what it was, less one for each period elapsed since its last decrement, 0 at least; it then
  -- grows by one exactly where it is below 255 and the draw is below its chance, and never wraps.
  pub update_lfu-lru :
      (rand rand_max : ℕ) (s : Server) (o : Robj)
      → let lru = (update_lfu rand rand_max s o).lru in
        let counter = o.lru % 256 - lfu_periods s (o.lru / 256) in
        (lru / 256 ≡ lfu_get_time_in_minutes s)
        × Grown rand rand_max s.lfu_log_factor counter (lru % 256)
  unfolding update_lfu
  update_lfu-lru rand rand_max s o =
      let c = o.lru % 256 - lfu_periods s (o.lru / 256) in
      let same : lfu_decr_and_return s o % 256 ≡ c = omega (arith, decayed s o) in
      let grown = log_incr-Grown rand rand_max s.lfu_log_factor c (omega arith) in
      let bound = Grown-bound rand rand_max s.lfu_log_factor c _ (omega arith) grown in
      let low =
        (lfu_get_time_in_minutes s * 256 + lfu_log_incr rand rand_max s.lfu_log_factor c)
        % 2 ^ 24 in
      let minutes : low / 256 ≡ lfu_get_time_in_minutes s = omega (arith, bound, minutes_bound s) in
      let count : low % 256 ≡ lfu_log_incr rand rand_max s.lfu_log_factor c =
        omega (arith, bound, minutes_bound s) in
      rw (same, count) (minutes, grown)
