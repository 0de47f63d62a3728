-- ===== src/Histogram.antt =====
-- The scoring of evict.c: the statistics of a sample, the window boundaries drawn from them, and
-- the score of an object. `none` is a read outside an array.
pub mod Range
pub mod Score
pub mod Total
use red_opt.Base.{ℕ, zero, suc, ◌+◌, ◌-◌, ◌*◌, ◌%◌, ◌^◌, List, [], ◌∷◌, Option, none, some, ◌>>=◌}
use red_opt.Base.{get_elem?, get_or, set, sub64, ltb, ◌==◌, if◌then◌else◌}
use red_opt.Server.{num_windows}
use red_opt.Object.{Robj}
use red_opt.Double.{Double}

-- The running totals of `calculateStatistics`, with `unsigned long long` sums. (`obj_min` and
-- `obj_max` are computed and never read.)
pub record Totals : Type 0 where
  pub global_min : ℕ
  pub global_max : ℕ
  pub sum : ℕ
  pub sum_of_squares : ℕ
  pub count : ℕ

abbrev pub no_totals : Totals
no_totals = record {
  global_min = 2 ^ 64 - 1;
  global_max = 0;
  sum = 0;
  sum_of_squares = 0;
  count = 0;
}

-- The body of the inner loop.
unfoldable pub add_age : Totals → ℕ → Totals
add_age t age = record {
  global_min = if ltb age t.global_min then age else t.global_min;
  global_max = if ltb t.global_max age then age else t.global_max;
  sum = (t.sum + age) % 2 ^ 64;
  sum_of_squares = (t.sum_of_squares + age * age) % 2 ^ 64;
  count = (t.count + 1) % 2 ^ 64;
}

-- The inner loop, with the rounds left: the ages of the accesses from `i` on.
unfoldable pub add_ages : ℕ → ℕ → ℕ → List ℕ → Totals → Option Totals
add_ages zero i now times t = some t
add_ages (suc n) i now times t =
    get_elem? times i >>= λ time. add_ages n (i + 1) now times (add_age t (sub64 now time))

-- The outer loop.
unfoldable pub add_samples : ℕ → List Robj → Totals → Option Totals
add_samples now [] t = some t
add_samples now (o ∷ samples) t =
    add_ages o.num_accesses 0 now o.access_times t >>= add_samples now samples

module _ (d : Double) where
  open d use {F, of_ℕ, lit, add, sub, mul, div, neg, sqrt, fmax, fmin, le}

  unfoldable pub mean : Totals → F
  mean t = if t.count == 0 then of_ℕ 0 else div (of_ℕ t.sum) (of_ℕ t.count)

  unfoldable pub stddev : Totals → F
  stddev t =
      if t.count == 0
      then of_ℕ 0
      else sqrt (sub (div (of_ℕ t.sum_of_squares) (of_ℕ t.count)) (mul (mean t) (mean t)))

  -- The minimum, the maximum, the mean and the standard deviation of the ages.
  unfoldable pub calculate_statistics : ℕ → List Robj → Option (ℕ × ℕ × F × F)
  calculate_statistics now samples =
      add_samples now samples no_totals >>= λ t. some (t.global_min, t.global_max, mean t, stddev t)

  -- `window_boundaries[NUM_WINDOWS]`.
  unfoldable pub define_window_boundaries : ℕ × ℕ × F × F → List F
  define_window_boundaries (global_min, global_max, mean, stddev) =
      of_ℕ global_min
      ∷ fmax (of_ℕ global_min) (sub mean stddev)
      ∷ fmax (of_ℕ global_min) (fmin (of_ℕ global_max) mean)
      ∷ fmin (of_ℕ global_max) (add mean stddev)
      ∷ of_ℕ global_max
      ∷ []

  -- The loop over the windows, with the rounds left: the first window from `j` on whose boundary
  -- is not below the age. `some none` is the end of the loop without one.
  unfoldable pub find_window : List F → ℕ → ℕ → ℕ → Option (Option ℕ)
  find_window boundaries zero j age = some none
  find_window boundaries (suc n) j age = elim (get_elem? boundaries j) [
    | none ↦ none
    | some b ↦
        let rest = find_window boundaries n (j + 1) age in
        if le (of_ℕ age) b then some (some j) else rest
  ]

  abbrev pub count_window : List ℕ → Option ℕ → List ℕ
  count_window counts none = counts
  count_window counts (some j) = set counts j (get_or counts j 0 + 1)

  -- The loop over the accesses, with the rounds left.
  unfoldable pub count_windows : List F → ℕ → ℕ → ℕ → List ℕ → List ℕ → Option (List ℕ)
  count_windows boundaries zero i now times counts = some counts
  count_windows boundaries (suc n) i now times counts = get_elem? times i >>= λ time.
      find_window boundaries num_windows 1 (sub64 now time) >>= λ window.
      count_windows boundaries n (i + 1) now times (count_window counts window)

  -- `WINDOW_WEIGHTS`, whose element at `i` is `WINDOW_WEIGHT_(i + 1)`, times the count at `i`.
  abbrev pub weighted : List ℕ → ℕ → ℕ → ℕ → F
  weighted counts i m e = mul (of_ℕ (get_or counts i 0)) (lit m e)

  abbrev pub weighted_score : List ℕ → F
  weighted_score counts =
      add
        (add (add (add (of_ℕ 0) (weighted counts 1 3 1)) (weighted counts 2 2 1))
          (weighted counts 3 15 2))
        (weighted counts 4 5 2)

  unfoldable pub estimate_object_eviction_score : ℕ → List F → Robj → Option F
  estimate_object_eviction_score now boundaries o =
      count_windows boundaries o.num_accesses 0 now o.access_times (0 ∷ 0 ∷ 0 ∷ 0 ∷ 0 ∷ 0 ∷ [])
      >>= λ counts. some (neg (add (weighted_score counts) (mul (lit 1 2) (of_ℕ o.num_accesses))))
