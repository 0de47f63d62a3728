-- ===== src/Populate/Refine.antt =====
-- `evictionPoolPopulate` and `evictionPoolPopulateLRUHistogram` (evict.c) against the bounded
-- insertions of their candidates.
use red_opt.Base.{
  ℕ, zero, suc, ◌+◌, ◌-◌, ◌≤◌, ◌≡◌, ◌≢◌, ◌⊎◌, inl, inr, ℤ, pos, length, get_elem?, refl, List, [],
  ◌∷◌, Bool, true, Option, some, ◌>>=◌,
}
use red_opt.Base.{All, ltb, >>=-eq-some, >>=-some, arith}
use red_opt.Base.{sym, ap, ◌∙◌}
use mathlib.Core.Path.{subst}
use red_opt.Server.{Server}
use red_opt.Clock.{lru_clock}
use red_opt.Double.{Double}
use red_opt.Object.{Robj}
use red_opt.Object.History.{IsRobj}
use red_opt.Histogram.{define_window_boundaries}
use red_opt.Histogram.Score.{Scored, calculate_statistics-Scored}
use red_opt.Histogram.Total.{calculate_statistics-total}
use red_opt.Pool.{Sds, Entry, Pool, pool_size, by_idle, by_score, insert_candidate}
use red_opt.Pool.Spec.{Item, bounded_insert}
use red_opt.Pool.Shape.{IsPool}
use red_opt.Pool.Insert.{pool_contents, insert_candidate-refines}
use red_opt.Pool.Order.{IsOrder, IsRanked, bounded_insert-IsRanked}
use red_opt.Populate.{Sample, as_object, idle_of, eviction_pool_populate, score_of, populate_scored}
use red_opt.Populate.{
  print_entries, print_pool, pcounter_after, sampled_objects, object_of,
  eviction_pool_populate_lru_histogram,
}

-- The candidates inserted one after another.
pub insert_all : {R : Type 0} → (R → R → Bool) → List (Item R) → List (Item R) → List (Item R)
insert_all lt [] xs = xs
insert_all lt (c ∷ cs) xs = insert_all lt cs (bounded_insert lt c xs)

-- Every idle time can be compared.
abbrev pub Any : ℕ → Type 0
Any r = Unit

pub idle_order : IsOrder ℕ ltb Any
idle_order = record { asym = λ a b h. ground arith; not_lt_trans = λ a b c ok h k. ground arith }

-- The candidates that the samples give.
unfoldable pub idle_items :
    Server → ℕ → Bool → (Sds → Option Robj) → List Sample → Option (List (Item ℕ))
idle_items s dbid same find [] = some []
idle_items s dbid same find (x ∷ samples) = idle_of s same find x >>= λ idle.
    idle_items s dbid same find samples >>= λ items. some ((idle, dbid, x.0) ∷ items)

-- Where every sample gives a candidate, `evictionPoolPopulate` returns; the pool keeps its
-- invariant and its order by idle time; and its candidates are those of the bounded insertion of
-- each sample's key, with its idle time, one after another.
pub eviction_pool_populate-refines :
    {F : Type 0} (s : Server) (dbid : ℕ) (same : Bool) (find : Sds → Option Robj)
    (samples : List Sample) (p : Pool F) {items : List (Item ℕ)}
    → idle_items s dbid same find samples ≡ some items
    → IsPool p
    → IsRanked ltb Any idle_order (pool_contents by_idle p)
    → (p' : Pool F) × (eviction_pool_populate s dbid same find samples p ≡ some p')
      × IsPool p'
      × (pool_contents by_idle p' ≡ insert_all ltb items (pool_contents by_idle p))
      × IsRanked ltb Any idle_order (pool_contents by_idle p')
unfolding eviction_pool_populate idle_items insert_all
eviction_pool_populate-refines s dbid same find [] p {items} e v k =
    let same_items : items ≡ [] = cc in
    (p, refl, v, ap (λ l. insert_all ltb l (pool_contents by_idle p)) (sym same_items), k)
eviction_pool_populate-refines s dbid same find (x ∷ samples) p {items} e v k =
    let (idle, e1, rest) = >>=-eq-some (idle_of s same find x) _ e in
    let (more, e2, e3) = >>=-eq-some (idle_items s dbid same find samples) _ rest in
    let same_items : items ≡ (idle, dbid, x.0) ∷ more = cc in
    let (v', grown) = insert_candidate-refines by_idle p x.0 idle dbid v in
    let ranked =
      bounded_insert-IsRanked ltb Any idle_order (idle, dbid, x.0) (pool_contents by_idle p) tt k in
    let (p', run, valid, all, order) =
      eviction_pool_populate-refines s dbid same find samples
        (insert_candidate by_idle p x.0 idle dbid) e2 v'
        (subst (IsRanked ltb Any idle_order) (sym grown) ranked) in
    (
      p',
      >>=-some _ e1 run,
      valid,
      all
          ∙ ap (insert_all ltb more) grown
          ∙ ap (λ l. insert_all ltb l (pool_contents by_idle p)) (sym same_items),
      order,
    )

inside :
    {A : Type 0} (xs : List A) (i : ℕ) → suc i ≤ length xs → (x : A) × (get_elem? xs i ≡ some x)
inside [] i h = absurd (omega arith)
inside (x ∷ xs) zero h = (x, refl)
inside (x ∷ xs) (suc i) h = inside xs i (omega arith)

print_entries-inside :
    {F : Type 0} (n i : ℕ) (p : Pool F)
    → n ≤ length p.entries - i
    → (es : List (Entry F)) × (print_entries n i p ≡ some es)
unfolding print_entries
print_entries-inside zero i p h = ([], refl)
print_entries-inside (suc n) i p h =
    let (e, got) = inside p.entries i (omega arith) in
    let (es, run) = print_entries-inside n (i + 1) p (omega arith) in
    (e ∷ es, >>=-some _ got (>>=-some _ run refl))

-- The loop that prints the pool starts in the array, or behind it.
print_pool-inside :
    {F : Type 0} (left_over : ℤ) (samples : List Sample) (p : Pool F)
    → (samples ≢ []) ⊎ ((n : ℕ) × (left_over ≡ pos n))
    → IsPool p
    → (es : List (Entry F)) × (print_pool (pcounter_after left_over samples) p ≡ some es)
unfolding print_pool print_entries
print_pool-inside left_over (x ∷ samples) p start v =
    print_entries-inside pool_size 0 p (omega (arith, v.packed.full))
print_pool-inside left_over [] p (inl filled) v = absurd (filled refl)
print_pool-inside left_over [] p (inr (n, nonneg)) v =
    rw nonneg (print_entries-inside (pool_size - n) n p (omega (arith, v.packed.full)))

module _ (d : Double) (s : Server) (dbid : ℕ) (find : Sds → Option Robj) where
  open d use {F, le, lt}

  abbrev pub Number : F → Type 0
  Number x = le x x ≡ true

  pub score_order : IsOrder F lt Number
  score_order = record { asym = d.lt_asym; not_lt_trans = d.not_lt_trans }

  populate_scored-total :
      (bounds : List F) (samples : List Sample) (objects : List Robj) (p : Pool F)
      → sampled_objects d s dbid true find samples ≡ some objects
      → All (Scored d (lru_clock s) bounds) objects
      → IsPool p
      → IsRanked lt Number score_order (pool_contents (by_score d) p)
      → (p' : Pool F) × (populate_scored d s dbid true find bounds samples p ≡ some p')
        × IsPool p'
        × IsRanked lt Number score_order (pool_contents (by_score d) p')
  unfolding populate_scored sampled_objects score_of object_of
  populate_scored-total bounds [] objects p e h v k = (p, refl, v, k)
  populate_scored-total bounds (x ∷ samples) objects p e h v k =
      let (o, e1, rest) = >>=-eq-some (as_object x.1) _ e in
      let (os, e2, e3) = >>=-eq-some (sampled_objects d s dbid true find samples) _ rest in
      let same_objects : objects ≡ o ∷ os = cc in
      let h' = subst (All (Scored d (lru_clock s) bounds)) same_objects h in
      let (score, run, number) = h'.0 in
      let (v', grown) = insert_candidate-refines (by_score d) p x.0 score dbid v in
      let ranked =
        bounded_insert-IsRanked lt Number score_order (score, dbid, x.0)
          (pool_contents (by_score d) p) number k in
      let (p', go, valid, order) =
        populate_scored-total bounds samples os (insert_candidate (by_score d) p x.0 score dbid) e2
          h'.1 v' (subst (IsRanked lt Number score_order) (sym grown) ranked) in
      (p', >>=-some _ (>>=-some _ e1 run) go, valid, order)

  -- On samples of the main dictionary, whose objects each have an array of four cells and count
  -- four accesses at most, `evictionPoolPopulateLRUHistogram` returns: every read is inside its
  -- array, where there is a sample, or the memory of `pcounter`, which is then not initialised,
  -- does not hold a negative number. The pool keeps its invariant, and its order by score.
  pub eviction_pool_populate_lru_histogram-total :
      (left_over : ℤ) (samples : List Sample) (objects : List Robj) (p : Pool F)
      → (samples ≢ []) ⊎ ((n : ℕ) × (left_over ≡ pos n))
      → sampled_objects d s dbid true find samples ≡ some objects
      → All IsRobj objects
      → IsPool p
      → IsRanked lt Number score_order (pool_contents (by_score d) p)
      → (p' : Pool F) × (eviction_pool_populate_lru_histogram d s dbid true find left_over samples p
          ≡ some p')
        × IsPool p'
        × IsRanked lt Number score_order (pool_contents (by_score d) p')
  unfolding eviction_pool_populate_lru_histogram
  eviction_pool_populate_lru_histogram-total left_over samples objects p start e h v k =
      let (lo, hi, mean, stddev, st) = calculate_statistics-total d (lru_clock s) objects h in
      let (p', go, valid, order) =
        populate_scored-total (define_window_boundaries d (lo, hi, mean, stddev)) samples objects p
          e (calculate_statistics-Scored d (lru_clock s) objects st) v k in
      let (printed, read) = print_pool-inside left_over samples p' start valid in
      (p', >>=-some _ e (>>=-some _ st (>>=-some _ go (>>=-some _ read refl))), valid, order)
