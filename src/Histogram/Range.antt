-- ===== src/Histogram/Range.antt =====
-- The minimum and the maximum that `calculateStatistics` finds.
use red_opt.Base.{ℕ, zero, suc, ◌+◌, ◌≤◌, ◌<◌, ◌≡◌, ◌∙◌, ap, List, [], ◌∷◌, some}
use red_opt.Base.{>>=-eq-some, get_elem?, sub64, All, arith}
use native.Mathlib.Decide.{ℕ_discrete}
use red_opt.Object.{Robj}
use red_opt.Double.{Double}
use red_opt.Histogram.{Totals, no_totals, add_age, add_ages, add_samples, calculate_statistics}

-- The minimum falls and the maximum grows.
abbrev Widens : Totals → Totals → Type 0
Widens t u = (u.global_min ≤ t.global_min) × (t.global_max ≤ u.global_max)

-- Each of the accesses from `i` on, `n` of them, can be read, and its age lies in the range.
abbrev pub Ages : ℕ → ℕ → ℕ → ℕ → ℕ → List ℕ → Type 0
Ages lo hi n i now times =
    (j : ℕ)
    → i ≤ j
    → j < i + n
    → (time : ℕ) × (get_elem? times j ≡ some time) × (lo ≤ sub64 now time) × (sub64 now time ≤ hi)

-- The same of all accesses that an object counts.
abbrev pub Within : ℕ → ℕ → ℕ → Robj → Type 0
Within now lo hi o = Ages lo hi o.num_accesses 0 now o.access_times

add_age-Widens :
    (t : Totals) (age : ℕ)
    → Widens t (add_age t age)
      × ((add_age t age).global_min ≤ age)
      × (age ≤ (add_age t age).global_max)
unfolding add_age
add_age-Widens t age = ground arith

add_ages-Ages :
    (n i now : ℕ) (times : List ℕ) (t u : Totals)
    → add_ages n i now times t ≡ some u
    → Widens t u × Ages u.global_min u.global_max n i now times
unfolding add_ages
add_ages-Ages zero i now times t u h = (ground arith, λ j p q. absurd (omega arith))
add_ages-Ages (suc n) i now times t u h =
    let (time, e, k) = >>=-eq-some (get_elem? times i) _ h in
    let (w, inside) = add_ages-Ages n (i + 1) now times (add_age t (sub64 now time)) u k in
    let (w', lo, hi) = add_age-Widens t (sub64 now time) in
    (
      omega arith,
      λ j p q. elim (ℕ_discrete j i) [
        | yes here ↦ (time, ap (get_elem? times) here ∙ e, omega arith, omega arith)
        | no later ↦ inside j (omega arith) (omega arith)
      ],
    )

Within-widen :
    (now : ℕ) (t u : Totals) (samples : List Robj)
    → Widens t u
    → All (Within now t.global_min t.global_max) samples
    → All (Within now u.global_min u.global_max) samples
Within-widen now t u [] w h = tt
Within-widen now t u (o ∷ samples) w h = (
  λ j p q. let (time, e, lo, hi) = h.0 j p q in (time, e, omega arith, omega arith),
  Within-widen now t u samples w h.1,
)

add_samples-Within :
    (now : ℕ) (samples : List Robj) (t u : Totals)
    → add_samples now samples t ≡ some u
    → Widens t u × All (Within now u.global_min u.global_max) samples
unfolding add_samples
add_samples-Within now [] t u h = (ground arith, tt)
add_samples-Within now (o ∷ samples) t u h =
    let (v, e, k) = >>=-eq-some (add_ages o.num_accesses 0 now o.access_times t) _ h in
    let (w, ages) = add_ages-Ages o.num_accesses 0 now o.access_times t v e in
    let (w', rest) = add_samples-Within now samples v u k in
    (
      omega arith,
      (λ j p q. let (time, e, lo, hi) = ages j p q in (time, e, omega arith, omega arith), rest),
    )

-- When `calculateStatistics` returns, every access that an object of the sample counts has been
-- read inside its array, and its age lies between the minimum and the maximum that are returned.
pub calculate_statistics-Within :
    (d : Double) (now : ℕ) (samples : List Robj) {lo hi : ℕ} {mean stddev : d.F}
    → calculate_statistics d now samples ≡ some (lo, hi, mean, stddev)
    → All (Within now lo hi) samples
unfolding calculate_statistics
calculate_statistics-Within d now samples {lo} {hi} h =
    let (t, e, k) = >>=-eq-some (add_samples now samples no_totals) _ h in
    let inside = (add_samples-Within now samples no_totals t e).1 in
    let same_lo : t.global_min ≡ lo = cc in
    let same_hi : t.global_max ≡ hi = cc in rw (same_lo, same_hi) at inside
