-- ===== src/Evict/Cycle/Effect.antt =====
-- The steps of `performEvictions`, one after another, for what they do to the state (evict.c).
use red_opt.Base.{ℕ, zero, suc, ◌+◌, ◌%◌, ◌≡◌, refl, sym, ap, ◌∙◌, ◌⊎◌}
use red_opt.Base.{Bool, false, not, ◌&&◌, none, some, >>=-eq-some}
use red_opt.Base.{◌==◌, ltb, Bool-cases, Option-cases, inl, inr, if◌then◌else◌, arith}
use mathlib.Core.Path.{subst}
use red_opt.Server.{Server, no_eviction}
use red_opt.Double.{Double}
use red_opt.Object.{Robj}
use red_opt.Pool.Shape.{IsPool}
use red_opt.Memory.{get_maxmemory_state, eviction_time_limit_us}
use red_opt.Dict.{DictApi}
use red_opt.Evict.{Target}
use red_opt.Evict.Cycle.{
  Result, evict_ok, evict_running, evict_fail, Choice, no_key, best, unfinished, Ending, enough,
  cant_free, going_on,
}
use red_opt.Evict.Cycle.{Progress, account, Outside, Eviction}
use red_opt.Evict.Cycle.{pick, evict_key, memory_at}
use red_opt.Evict.Cycle.{
  start_eviction_time_proc, after_batch, evict_loop, wait_lazyfree, update_metrics, conclude,
  with_metrics,
}
use red_opt.Evict.Cycle.{is_safe_to_perform_evictions, assert_no_propagation, perform_evictions}
use red_opt.Evict.Cycle.Shrink.{Evicts, quiet, Evicts-trans, evict_key-Evicts}
use red_opt.Evict.Cycle.Picks.{still, pick-Evicts}

Choice-cases : (c : Choice) → (c ≡ no_key) ⊎ (c ≡ unfinished) ⊎ ((t : Target) × (c ≡ best t))
Choice-cases no_key = inl refl
Choice-cases unfinished = inr (inl refl)
Choice-cases (best t) = inr (inr (t, refl))

module _ (keys : DictApi Robj) (times : DictApi ℕ) (d : Double) (out : Outside keys times d)
    (s : Server) where
  abbrev pub State : Type 0
  State = Eviction keys times d

  abbrev Steps : State → State → Type 0
  Steps = Evicts keys times d

  -- The pool, the databases and the count are the same.
  abbrev pub Same : State → State → Type 0
  Same st st' =
      (st'.pool ≡ st.pool) × (st'.dbs ≡ st.dbs) × (st'.stat_evictedkeys ≡ st.stat_evictedkeys)

  Same-Evicts : (st st' : State) → Same st st' → Steps st st'
  Same-Evicts st st' (p, e, n) = quiet keys times d (subst IsPool (sym p)) e (sym n)

  start-Same : (st : State) → Same st (start_eviction_time_proc keys times d st)
  unfolding start_eviction_time_proc
  start-Same st = elim (Bool-cases st.proc_running) [
    | inl runs ↦ rw (runs, start_eviction_time_proc) (refl, refl, refl)
    | inr idle ↦ rw (idle, start_eviction_time_proc) (refl, refl, refl)
  ]

  abbrev pub flush : State → State
  flush st = if out.slaves then record st { flushed = st.flushed + 1 } else st

  pub flush-Same : (st : State) → Same st (flush st)
  flush-Same st = elim (Bool-cases out.slaves) [
    | inl replicas ↦ rw replicas (refl, refl, refl)
    | inr none_there ↦ rw none_there (refl, refl, refl)
  ]

  pub after_batch-cases :
      (limit : ℕ) (st : State)
      → (after_batch keys times d out limit st ≡ (some (flush st), flush st))
        ⊎ (after_batch keys times d out limit st
            ≡ (some (start_eviction_time_proc keys times d (flush st)), flush st))
        ⊎ (after_batch keys times d out limit st ≡ (none, flush st))
  unfolding after_batch
  after_batch-cases limit st = ground arith

  after_batch-Evicts :
      (limit : ℕ) (st : State)
      → Steps st (after_batch keys times d out limit st).1
        × ((st' : State) → (after_batch keys times d out limit st).0 ≡ some st' → Steps st st')
  after_batch-Evicts limit st =
      let flushed = Same-Evicts st (flush st) (flush-Same st) in
      elim (after_batch-cases limit st) [
        | inl same ↦
            rw same (flushed, λ st' e. let e' : flush st ≡ st' = cc in subst (Steps st) e' flushed)
        | inr (inl same) ↦
            let started = Evicts-trans keys times d flushed (
              Same-Evicts (flush st) (start_eviction_time_proc keys times d (flush st))
                (start-Same (flush st))) in
            rw same (
              flushed,
              λ st' e.
                  let e' : start_eviction_time_proc keys times d (flush st) ≡ st' = cc in
                  subst (Steps st) e' started,
            )
        | inr (inr same) ↦ rw same (flushed, λ st' e. absurd cc)
      ]

  evict_loop-Evicts :
      (fuel limit tofree : ℕ) (p : Progress) (st : State) {ending : Ending} {st' : State}
      → evict_loop keys times d fuel out s limit tofree p st ≡ some (ending, st')
      → Steps st st'
  unfolding evict_loop
  evict_loop-Evicts zero limit tofree p st {ending} {st'} e =
      let same : st ≡ st' = cc in still keys times d out s same
  evict_loop-Evicts (suc n) limit tofree p st {ending} {st'} e =
      elim (Bool-cases (not (ltb p.freed (tofree + p.grown)))) [
        | inl done ↦
            let e' = rw done at e in let same : st ≡ st' = cc in still keys times d out s same
        | inr more ↦
            let (picked, e1, e2) =
              >>=-eq-some (pick keys times d (suc n) out s st) _ (rw more at e) in
            Evicts-trans keys times d (pick-Evicts keys times d out s (suc n) st e1)
              (elim (Choice-cases picked.0) [
                | inl none_left ↦
                    let e3 = rw none_left at e2 in
                    let same : picked.1 ≡ st' = cc in still keys times d out s same
                | inr (inl round) ↦
                    let e3 = rw round at e2 in
                    let same : picked.1 ≡ st' = cc in still keys times d out s same
                | inr (inr (t, chosen)) ↦
                    let gone = evict_key keys times d out t picked.1 in
                    let p' =
                      account p (memory_at keys times d out picked.1).used
                        (memory_at keys times d out gone).used in
                    let batch = after_batch-Evicts limit gone in
                    let flushed = (after_batch keys times d out limit gone).1 in
                    let e3 = rw chosen at e2 in
                    Evicts-trans keys times d (evict_key-Evicts keys times d out t picked.1)
                      (elim (Bool-cases (p'.keys_freed % 16 == 0)) [
                        | inr on ↦ evict_loop-Evicts n limit tofree p' gone (rw on at e3)
                        | inl sixteenth ↦
                            elim (Option-cases (after_batch keys times d out limit gone).0) [
                              | inl goes_on ↦ Evicts-trans keys times d batch.0 (
                                  evict_loop-Evicts n limit tofree p' flushed
                                    (rw (sixteenth, goes_on) at e3))
                              | inr (last, stop) ↦
                                  let e4 = rw (sixteenth, stop) at e3 in
                                  let same : last ≡ st' = cc in batch.1 st' (stop ∙ ap some same)
                            ]
                      ])
              ])
      ]

  wait_lazyfree-Evicts :
      (fuel limit : ℕ) (st : State) {done : Bool} {st' : State}
      → wait_lazyfree keys times d fuel out limit st ≡ some (done, st')
      → Steps st st'
  unfolding wait_lazyfree
  wait_lazyfree-Evicts zero limit st e = absurd cc
  wait_lazyfree-Evicts (suc n) limit st {done} {st'} e =
      let slept : State = record st { tick = st.tick + 1 } in
      elim (Bool-cases (out.pending_jobs st.tick && ltb (out.elapsed_us st.tick) limit)) [
        | inr idle ↦
            let e' = rw idle at e in let same : st ≡ st' = cc in still keys times d out s same
        | inl pending ↦
            elim (Bool-cases
              (not (get_maxmemory_state (memory_at keys times d out st) false).over)) [
                | inl below ↦
                    let e' = rw (pending, below) at e in
                    let same : st ≡ st' = cc in still keys times d out s same
                | inr over ↦
                    Evicts-trans keys times d (Same-Evicts st slept (refl, refl, refl))
                      (wait_lazyfree-Evicts n limit slept (rw (pending, over) at e))
              ]
      ]

  conclude-Evicts :
      (fuel limit : ℕ) (ending : Ending) (st : State) {r : Result} {st' : State}
      → conclude keys times d fuel out limit ending st ≡ some (r, st')
      → Steps st st'
  unfolding conclude
  conclude-Evicts fuel limit enough st {r} {st'} e =
      let same : st ≡ st' = cc in still keys times d out s same
  conclude-Evicts fuel limit cant_free st {r} {st'} e =
      let (waited, e1, e2) = >>=-eq-some (wait_lazyfree keys times d fuel out limit st) _ e in
      let same : waited.1 ≡ st' = cc in
      Evicts-trans keys times d (wait_lazyfree-Evicts fuel limit st e1)
        (still keys times d out s same)
  conclude-Evicts fuel limit going_on st e = absurd cc

  update_metrics-Same :
      (since : ℕ) (r : Result) (st : State) → Same st (update_metrics keys times d since r st)
  unfolding update_metrics
  update_metrics-Same since evict_ok st = elim (Bool-cases st.exceeded) [
    | inl above ↦ rw (above, update_metrics) (refl, refl, refl)
    | inr below ↦ rw (below, update_metrics) (refl, refl, refl)
  ]
  update_metrics-Same since evict_running st = (refl, refl, refl)
  update_metrics-Same since evict_fail st = (refl, refl, refl)

  with_metrics-Evicts :
      (r : Result × State) {r' : Result} {st' : State}
      → some (with_metrics keys times d out r) ≡ some (r', st')
      → Steps r.1 st'
  with_metrics-Evicts r {r'} {st'} e =
      let since = out.exceeded_us r.1.tick in
      let same : update_metrics keys times d since r.0 r.1 ≡ st' = cc in
      subst (Steps r.1) same (
        Same-Evicts r.1 (update_metrics keys times d since r.0 r.1)
          (update_metrics-Same since r.0 r.1))

  -- Where `performEvictions` returns, by whatever way, whatever the calls it makes have answered:
  -- the pool has kept its invariant; there are as many databases as before, and none has a value
  -- or a time of a key that it did not have before; the count of evicted keys has not become
  -- smaller, and where it is the same no database has changed.
  pub perform_evictions-Evicts :
      (fuel : ℕ) (st : State) {r : Result} {st' : State}
      → perform_evictions keys times d fuel out s st ≡ some (r, st')
      → Evicts keys times d st st'
  unfolding perform_evictions
  perform_evictions-Evicts fuel st {r} {st'} e =
      elim (Bool-cases (not (is_safe_to_perform_evictions keys times d out s))) [
        | inl unsafe ↦
            let e' = rw unsafe at e in let same : st ≡ st' = cc in still keys times d out s same
        | inr safe ↦
            elim (Bool-cases
              (not (get_maxmemory_state (memory_at keys times d out st) false).over)) [
                | inl below ↦ with_metrics-Evicts (evict_ok, st) (rw (safe, below) at e)
                | inr over ↦ elim (Bool-cases (s.maxmemory_policy == no_eviction)) [
                  | inl forbidden ↦
                      with_metrics-Evicts (evict_fail, st) (rw (safe, over, forbidden) at e)
                  | inr allowed ↦
                      let (tofree, e1, k1) =
                        >>=-eq-some
                          (get_maxmemory_state (memory_at keys times d out st) false).tofree _
                          (rw (safe, over, allowed) at e) in
                      let (limit, e2, k2) =
                        >>=-eq-some
                          (eviction_time_limit_us out.time_limit s.maxmemory_eviction_tenacity) _
                          k1 in
                      let (asserted, e0, k0) =
                        >>=-eq-some (assert_no_propagation keys times d out) _ k2 in
                      let (ended, e3, k3) =
                        >>=-eq-some
                          (evict_loop keys times d fuel out s limit tofree
                            (record { freed = 0; grown = 0; keys_freed = 0 }) st)
                          _ k0 in
                      let (x, e4, k4) =
                        >>=-eq-some (conclude keys times d fuel out limit ended.0 ended.1) _ k3 in
                      Evicts-trans keys times d (evict_loop-Evicts fuel limit tofree _ st e3) (
                        Evicts-trans keys times d (conclude-Evicts fuel limit ended.0 ended.1 e4)
                          (with_metrics-Evicts x k4))
                ]
              ]
      ]
