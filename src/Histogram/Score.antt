-- ===== src/Histogram/Score.antt =====
-- The windows and the score that `estimateObjectEvictionScore` (evict.c) gives an object of the
-- sample.
use red_opt.Base.{
  ℕ, zero, suc, ◌+◌, ◌≤◌, ◌<◌, ◌≡◌, refl, List, [], ◌∷◌, Bool, true, false, some, none,
}
use red_opt.Base.{All, ◌∙◌, length, length-set, if◌then◌else◌, get_or, set, sub64, ap, arith}
use mathlib.Core.Path.{ap₂}
use red_opt.Object.{Robj}
use red_opt.Double.{Double}
use red_opt.Histogram.{define_window_boundaries, find_window, count_windows}
use red_opt.Histogram.{weighted_score, calculate_statistics, estimate_object_eviction_score}
use red_opt.Histogram.Range.{Ages, Within, calculate_statistics-Within}

sum : List ℕ → ℕ
sum [] = 0
sum (x ∷ xs) = x + sum xs

sum-set : (xs : List ℕ) (j : ℕ) → j < length xs → sum (set xs j (get_or xs j 0 + 1)) ≡ sum xs + 1
unfolding sum
sum-set [] j h = absurd (omega arith)
sum-set (x ∷ xs) zero h = omega arith
sum-set (x ∷ xs) (suc j) h = omega (arith, sum-set xs j (omega arith))

-- The ladder of comparisons that the loop over the windows comes to.
first_window :
    (b c e : Bool) {g : Bool}
    → g ≡ true
    → (j : ℕ) × ((if b
          then some (some 1)
          else if c
          then some (some 2)
          else if e
          then some (some 3)
          else if g
          then some (some 4)
          else none)
        ≡ some (some j))
      × (j < 6)
first_window true c e h = (1, refl, omega arith)
first_window false true e h = (2, refl, omega arith)
first_window false false true h = (3, refl, omega arith)
first_window false false false h = (4, rw h, omega arith)

module _ (d : Double) (lo hi : ℕ) (mean stddev : d.F) where
  open d use {F, of_ℕ, lit, add, mul, neg, lt, le}

  abbrev bounds : List F
  bounds = define_window_boundaries d (lo, hi, mean, stddev)

  -- An age up to the maximum falls into one of the windows 1 to 4.
  find_window-found :
      (age : ℕ) → age ≤ hi → (j : ℕ) × (find_window d bounds 5 1 age ≡ some (some j)) × (j < 6)
  unfolding find_window define_window_boundaries
  find_window-found age h = first_window _ _ _ (d.le-of_ℕ age hi h)

  -- Every access is counted, in one window.
  count_windows-total :
      (n i now : ℕ) (times counts : List ℕ)
      → length counts ≡ 6
      → Ages lo hi n i now times
      → (counts' : List ℕ) × (count_windows d bounds n i now times counts ≡ some counts')
        × (length counts' ≡ 6)
        × (sum counts' ≡ sum counts + n)
  unfolding count_windows
  count_windows-total zero i now times counts l a = (counts, refl, l, omega arith)
  count_windows-total (suc n) i now times counts l a =
      let (time, e, above, below) = a i (omega arith) (omega arith) in
      let (j, found, k) = find_window-found (sub64 now time) below in
      let next = set counts j (get_or counts j 0 + 1) in
      let (counts', run, l', total) =
        count_windows-total n (i + 1) now times next
          (omega (arith, length-set counts j (get_or counts j 0 + 1)))
          (λ m p q. a m (omega arith) (omega arith)) in
      (counts', rw (e, found) run, l', omega (arith, sum-set counts j))

  weighted_score_nonneg : (counts : List ℕ) → le (of_ℕ 0) (weighted_score d counts) ≡ true
  weighted_score_nonneg counts =
      d.add_nonneg _ _
        (d.add_nonneg _ _
          (d.add_nonneg _ _
            (d.add_nonneg _ _ (d.le-of_ℕ 0 0 (omega arith)) (d.mul_nonneg _ 3 1 (omega arith)))
            (d.mul_nonneg _ 2 1 (omega arith)))
          (d.mul_nonneg _ 15 2 (omega arith)))
        (d.mul_nonneg _ 5 2 (omega arith))

  -- An object whose ages lie in the range has a score, which is a number and not above that of
  -- an object without accesses.
  estimate_object_eviction_score-defined :
      (now : ℕ) (o : Robj)
      → Within now lo hi o
      → (s : F) × (estimate_object_eviction_score d now bounds o ≡ some s)
        × (le s s ≡ true)
        × (lt (neg (of_ℕ 0)) s ≡ false)
  unfolding estimate_object_eviction_score
  estimate_object_eviction_score-defined now o w =
      let (counts, run, l, total) =
        count_windows-total o.num_accesses 0 now o.access_times (0 ∷ 0 ∷ 0 ∷ 0 ∷ 0 ∷ 0 ∷ []) refl
          w in
      let tie = d.mul_nonneg_left o.num_accesses 1 2 (omega arith) in
      let score = add (weighted_score d counts) (mul (lit 1 2) (of_ℕ o.num_accesses)) in
      let positive = d.add_nonneg _ _ (weighted_score_nonneg counts) tie in
      (
        neg score,
        rw run,
        d.neg_number score positive,
        d.lt-neg (of_ℕ 0) score ∙ d.not_lt_of_le (of_ℕ 0) score positive,
      )

  zero_score : weighted_score d (0 ∷ 0 ∷ 0 ∷ 0 ∷ 0 ∷ 0 ∷ []) ≡ of_ℕ 0
  zero_score =
      ap₂ add
        (ap₂ add
            (ap₂ add (ap (add (of_ℕ 0)) (d.mul_zero 3 1) ∙ d.add_zero) (d.mul_zero 2 1)
              ∙ d.add_zero)
            (d.mul_zero 15 2)
          ∙ d.add_zero)
        (d.mul_zero 5 2)
      ∙ d.add_zero

  estimate_of_unaccessed :
      (now : ℕ) (o : Robj)
      → o.num_accesses ≡ 0
      → estimate_object_eviction_score d now bounds o ≡ some (neg (of_ℕ 0))
  unfolding estimate_object_eviction_score count_windows
  estimate_of_unaccessed now o e =
      rw e (ap (λ x. some (neg x)) (ap₂ add zero_score (d.mul_zero_left 1 2) ∙ d.add_zero))

  -- The score of an object without accesses is not below the score of any object whose ages lie
  -- between the minimum and the maximum.
  pub unaccessed_top :
      (now : ℕ) (o o' : Robj)
      → o.num_accesses ≡ 0
      → Within now lo hi o'
      → (z s : F) × (estimate_object_eviction_score d now bounds o ≡ some z)
        × (estimate_object_eviction_score d now bounds o' ≡ some s)
        × (lt z s ≡ false)
  unaccessed_top now o o' e w =
      let (s, run, number, top) = estimate_object_eviction_score-defined now o' w in
      (neg (of_ℕ 0), s, estimate_of_unaccessed now o e, run, top)

-- What the code needs of the score of an object.
abbrev pub Scored : (d : Double) → ℕ → List d.F → Robj → Type 0
Scored d now bounds o =
    (s : d.F) × (estimate_object_eviction_score d now bounds o ≡ some s) × (d.le s s ≡ true)

All-Scored :
    (d : Double) (now lo hi : ℕ) (mean stddev : d.F) (samples : List Robj)
    → All (Within now lo hi) samples
    → All (Scored d now (define_window_boundaries d (lo, hi, mean, stddev))) samples
All-Scored d now lo hi mean stddev [] h = tt
All-Scored d now lo hi mean stddev (o ∷ samples) h =
    let (s, run, number, top) =
      estimate_object_eviction_score-defined d lo hi mean stddev now o h.0 in
    ((s, run, number), All-Scored d now lo hi mean stddev samples h.1)

-- With the boundaries that come from a sample's statistics, at the same clock, every object of the
-- sample has a score: neither its history nor the boundaries are read outside their arrays. The
-- score is a number, not a NaN.
pub calculate_statistics-Scored :
    (d : Double) (now : ℕ) (samples : List Robj) {lo hi : ℕ} {mean stddev : d.F}
    → calculate_statistics d now samples ≡ some (lo, hi, mean, stddev)
    → All (Scored d now (define_window_boundaries d (lo, hi, mean, stddev))) samples
calculate_statistics-Scored d now samples {lo} {hi} {mean} {stddev} h =
    All-Scored d now lo hi mean stddev samples (calculate_statistics-Within d now samples h)
