-- ===== src/Tests/Scores.antt =====
-- The theorems on the scoring at concrete inputs.
use red_opt.Base.{◌≡◌, refl, List, [], ◌∷◌, false, some, All}
use red_opt.Object.{Robj}
use red_opt.Histogram.{calculate_statistics, add_samples, add_ages, add_age, mean, stddev}
use red_opt.Histogram.{define_window_boundaries, estimate_object_eviction_score}
use red_opt.Histogram.Range.{calculate_statistics-Within}
use red_opt.Histogram.Score.{Scored, calculate_statistics-Scored}
use red_opt.Base.{ℕ, true, false}
use red_opt.Pool.{Sds}
use red_opt.Object.{Robj}
use red_opt.Dict.{sds_eq}
use red_opt.Db.{KeySpace, db_set_value}
use red_opt.Db.Write.{db_set_value-top}
use red_opt.Tests.Dicts.{assoc, assoc_find}
use red_opt.Tests.Keys.{key_a, key_space, find_a}
use red_opt.Tests.Doubles.{Decimal, plus, less, negate, plus_of, times_of, over_of, decimals}
use red_opt.Tests.Samples.{twice_used, often_used, unused}

abbrev sample : List Robj
sample = twice_used ∷ often_used ∷ unused ∷ []

-- The ages are 300, 200, 100, 50, 10 and 5.
sample_statistics :
    calculate_statistics decimals 1000 sample ≡ some (5, 300, plus 11083, plus 1148755)
unfolding calculate_statistics add_samples add_ages add_age mean stddev negate plus_of times_of
    over_of
sample_statistics = refl

calculate_statistics-Scored_example :
    All
      (Scored decimals 1000 (define_window_boundaries decimals (5, 300, plus 11083, plus 1148755)))
      sample
calculate_statistics-Scored_example =
    calculate_statistics-Scored decimals 1000 sample sample_statistics

-- Key A is overwritten by an object without accesses.
db_set_value-top_example :
    let bounds = define_window_boundaries decimals (5, 300, plus 11083, plus 1148755) in
    (db' : KeySpace (assoc Robj) (assoc ℕ)) × (z s : Decimal) × (db_set_value
        (assoc Robj)
        (assoc ℕ)
        decimals
        key_space
        key_a
        unused
        true
      ≡ some db')
    × (assoc_find db'.dict key_a ≡ some (record unused { lru = twice_used.lru }))
    × (estimate_object_eviction_score decimals 1000 bounds (record unused { lru = twice_used.lru })
        ≡ some z)
    × (estimate_object_eviction_score decimals 1000 bounds twice_used ≡ some s)
    × (less z s ≡ false)
    × ((j : Sds) → sds_eq key_a j ≡ false → assoc_find db'.dict j ≡ assoc_find key_space.dict j)
    × (db'.expires ≡ key_space.expires)
db_set_value-top_example =
    db_set_value-top (assoc Robj) (assoc ℕ) decimals key_space key_a unused true 1000 5 300
      (plus 11083) (plus 1148755) twice_used find_a refl
      (calculate_statistics-Within decimals 1000 sample sample_statistics).0
