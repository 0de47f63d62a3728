-- ===== src/Evict.antt =====
-- The choice of the key to evict, from `performEvictions` (evict.c).
pub mod Scan
pub mod Best
pub mod Cycle
use red_opt.Base.{ℕ, zero, suc, ◌+◌, ◌%◌, List, [], ◌∷◌, Bool, true, false, not, ◌&&◌, ◌||◌}
use red_opt.Base.{Option, none, some, get_elem?, modify, ◌>>=◌, ◌==◌, if◌then◌else◌}
use red_opt.Server.{Server, flag_allkeys, flag_lru_histogram}
use red_opt.Double.{Double}
use red_opt.Pool.{Sds, KeyPtr, null, dup, buf, Entry, Pool, is_null, name, null_at, pool_size}

-- Taking an entry out of the pool. `zero` is 0.0.
abbrev pub clear : {F : Type 0} → F → Entry F → Entry F
clear zero_score e = record e { key = null; idle = 0; score = zero_score }

-- A key with the number of its database.
abbrev pub Target : Type 0
Target = ℕ × Sds

module _ {F : Type 0} (zero_score : F) (bufs : ℕ → Sds) (exists : ℕ → Sds → Bool) where
  -- One entry: `none` is an empty one.
  abbrev pub target_at : List (Entry F) → ℕ → Option Target
  target_at es k =
      get_elem? es k >>= λ e. if is_null e.key then none else some (e.dbid, name bufs e.key)

  -- `for (k = EVPOOL_SIZE-1; k >= 0; k--)`, with the entries still to be looked at: the first key
  -- that exists. `exists` is whether `dictFind` finds the key in its database.
  unfoldable pub scan : ℕ → List (Entry F) → Option Target × List (Entry F)
  scan zero es = (none, es)
  scan (suc k) es = elim (target_at es k) [
    | none ↦ scan k es
    | some t ↦
        let next = scan k (modify k (clear zero_score) es) in
        if exists t.0 t.1 then (some t, modify k (clear zero_score) es) else next
  ]
