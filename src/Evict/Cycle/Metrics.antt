-- ===== src/Evict/Cycle/Metrics.antt =====
-- The result of `performEvictions` and the statistics it keeps of the time above the limit.
use red_opt.Base.{ℕ, ◌≡◌, refl, sym, ap, ◌∙◌, Bool, true, false, some}
use red_opt.Base.{>>=-eq-some, ◌==◌, Bool-cases, inl, inr, arith}
use red_opt.Server.{Server, no_eviction}
use red_opt.Double.{Double}
use red_opt.Object.{Robj}
use red_opt.Dict.{DictApi}
use red_opt.Memory.{get_maxmemory_state, eviction_time_limit_us}
use red_opt.Evict.Cycle.{
  Result, evict_ok, evict_running, evict_fail, Outside, Eviction, memory_at,
  is_safe_to_perform_evictions,
}
use red_opt.Evict.Cycle.{
  evict_loop, conclude, update_metrics, with_metrics, assert_no_propagation, perform_evictions,
}

-- Whether the result says that the memory is above the limit.
abbrev pub is_over : Result → Bool
is_over evict_ok = false
is_over evict_running = true
is_over evict_fail = true

module _ (keys : DictApi Robj) (times : DictApi ℕ) (d : Double) (fuel : ℕ)
    (out : Outside keys times d) (s : Server) (st : Eviction keys times d) where
  exceeded-update_metrics :
      (since : ℕ) (r : Result) (st : Eviction keys times d)
      → (update_metrics keys times d since r st).exceeded ≡ is_over r
  unfolding update_metrics
  exceeded-update_metrics since evict_ok st = ground arith
  exceeded-update_metrics since evict_running st = refl
  exceeded-update_metrics since evict_fail st = refl

  -- What the last step makes of any result.
  measured :
      (x : Result × Eviction keys times d) {r : Result} {st' : Eviction keys times d}
      → some (with_metrics keys times d out x) ≡ some (r, st')
      → st'.exceeded ≡ is_over r
  measured x {r} {st'} e =
      let same : x.0 ≡ r = cc in
      let same_st : update_metrics keys times d (out.exceeded_us x.1.tick) x.0 x.1 ≡ st' = cc in
      ap (λ y. y.exceeded) (sym same_st)
      ∙ exceeded-update_metrics (out.exceeded_us x.1.tick) x.0 x.1
      ∙ ap is_over same

  -- After `performEvictions`, where evictions are safe and it returns, the time above the limit is
  -- being measured exactly if the result is EVICT_RUNNING or EVICT_FAIL.
  pub perform_evictions-exceeded :
      {r : Result} {st' : Eviction keys times d}
      → is_safe_to_perform_evictions keys times d out s ≡ true
      → perform_evictions keys times d fuel out s st ≡ some (r, st')
      → st'.exceeded ≡ is_over r
  unfolding perform_evictions
  perform_evictions-exceeded {r} {st'} safe e =
      elim (Bool-cases (get_maxmemory_state (memory_at keys times d out st) false).over) [
        | inr below ↦ measured (evict_ok, st) (rw (safe, below) at e)
        | inl over ↦ elim (Bool-cases (s.maxmemory_policy == no_eviction)) [
          | inl forbidden ↦ measured (evict_fail, st) (rw (safe, over, forbidden) at e)
          | inr allowed ↦
              let (tofree, e1, k1) =
                >>=-eq-some (get_maxmemory_state (memory_at keys times d out st) false).tofree _
                  (rw (safe, over, allowed) at e) in
              let (limit, e2, k2) =
                >>=-eq-some (eviction_time_limit_us out.time_limit s.maxmemory_eviction_tenacity) _
                  k1 in
              let (asserted, e0, k0) = >>=-eq-some (assert_no_propagation keys times d out) _ k2 in
              let (ended, e3, k3) =
                >>=-eq-some
                  (evict_loop keys times d fuel out s limit tofree
                    (record { freed = 0; grown = 0; keys_freed = 0 }) st)
                  _ k0 in
              let (x, e4, k4) =
                >>=-eq-some (conclude keys times d fuel out limit ended.0 ended.1) _ k3 in
              measured x k4
        ]
      ]
