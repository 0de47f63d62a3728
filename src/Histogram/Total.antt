-- ===== src/Histogram/Total.antt =====
-- The reads of `calculateStatistics` (evict.c).
use red_opt.Base.{ℕ, zero, suc, ◌+◌, ◌≤◌, ◌<◌, ◌≡◌, refl, List, [], ◌∷◌, some}
use red_opt.Base.{All, length, get_elem?, sub64, arith}
use red_opt.Object.{Robj}
use red_opt.Object.History.{IsRobj}
use red_opt.Double.{Double}
use red_opt.Histogram.{Totals, no_totals, add_age, add_ages, add_samples, calculate_statistics}

read : (xs : List ℕ) (i : ℕ) → i < length xs → (x : ℕ) × (get_elem? xs i ≡ some x)
read [] i h = absurd (omega arith)
read (x ∷ xs) zero h = (x, refl)
read (x ∷ xs) (suc i) h = read xs i (omega arith)

add_ages-total :
    (n i now : ℕ) (times : List ℕ) (t : Totals)
    → i + n ≤ length times
    → (u : Totals) × (add_ages n i now times t ≡ some u)
unfolding add_ages
add_ages-total zero i now times t h = (t, refl)
add_ages-total (suc n) i now times t h =
    let (time, e) = read times i (omega arith) in
    rw e (add_ages-total n (i + 1) now times (add_age t (sub64 now time)) (omega arith))

add_samples-total :
    (now : ℕ) (samples : List Robj) (t : Totals)
    → All IsRobj samples
    → (u : Totals) × (add_samples now samples t ≡ some u)
unfolding add_samples
add_samples-total now [] t h = (t, refl)
add_samples-total now (o ∷ samples) t h =
    let v = h.0 in
    let (u, e) = add_ages-total o.num_accesses 0 now o.access_times t (omega arith) in
    rw e (add_samples-total now samples u h.1)

-- On objects that each have an array of four cells and count four accesses at most,
-- `calculateStatistics` returns: it reads inside the arrays only.
pub calculate_statistics-total :
    (d : Double) (now : ℕ) (samples : List Robj)
    → All IsRobj samples
    → (lo hi : ℕ) × (mean stddev : d.F) × (calculate_statistics d now samples
        ≡ some (lo, hi, mean, stddev))
unfolding calculate_statistics
calculate_statistics-total d now samples h =
    let (u, e) = add_samples-total now samples no_totals h in rw e (_, _, _, _, refl)
