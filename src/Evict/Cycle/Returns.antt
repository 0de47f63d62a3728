-- ===== src/Evict/Cycle/Returns.antt =====
-- `performEvictions` under the policy allkeys-random comes to its end (evict.c).
use red_opt.Base.{
  ℕ, zero, suc, ◌+◌, ◌-◌, ◌*◌, ◌%◌, ◌^◌, ◌≤◌, ◌<◌, ◌≡◌, ◌≢◌, refl, sym, ap, ◌∙◌, ◌⊎◌, List, [], ◌∷◌,
}
use red_opt.Base.{Bool, true, false, not, ◌&&◌, Option, some, >>=-some, length, get_elem?, modify}
use red_opt.Base.{◌==◌, ltb, leb, Bool-cases, Option-cases, inl, inr, if◌then◌else◌, arith}
use mathlib.Core.Path.{subst}
use red_opt.Server.{Server, allkeys_random, no_eviction}
use red_opt.Double.{Double}
use red_opt.Object.{Robj}
use red_opt.Pool.{Sds}
use red_opt.Memory.{
  get_maxmemory_state, get_maxmemory_state-over, free_memory_get_not_counted_memory,
  eviction_time_limit_us,
}
use red_opt.Dict.{DictApi}
use red_opt.Db.{KeySpace, db_generic_delete}
use red_opt.Db.Flush.{db_total_server_key_count}
use red_opt.Evict.{Target}
use red_opt.Evict.Cycle.{assert_no_propagation}
use red_opt.Evict.Cycle.{
  Result, Choice, no_key, best, Ending, enough, cant_free, going_on, Progress, account, Outside,
  Eviction,
}
use red_opt.Evict.Cycle.{
  pick_random, pick, evict_from, evict_key, memory_at, after_batch, evict_loop, wait_lazyfree,
}
use red_opt.Evict.Cycle.{
  conclude, with_metrics, is_safe_to_perform_evictions, perform_evictions, evict_ok, evict_running,
  evict_fail,
}
use red_opt.Evict.Cycle.Effect.{flush-Same, after_batch-cases}

module _ (keys : DictApi Robj) (times : DictApi ℕ) (d : Double) where
  abbrev State : Type 0
  State = Eviction keys times d

  -- The number of keys that are left.
  abbrev total : State → ℕ
  total st = db_total_server_key_count keys times st.dbs

  total-modify :
      (f : KeySpace keys times → KeySpace keys times) (dbs : List (KeySpace keys times)) (i : ℕ)
      {db : KeySpace keys times}
      → get_elem? dbs i ≡ some db
      → keys.size (f db).dict < keys.size db.dict
      → db_total_server_key_count keys times (modify i f dbs)
        < db_total_server_key_count keys times dbs
  unfolding db_total_server_key_count
  total-modify f [] i e h = absurd cc
  total-modify f (x ∷ dbs) zero {db} e h =
      let same : x ≡ db = cc in
      let less : keys.size (f x).dict < keys.size x.dict =
        subst (λ y. keys.size (f y).dict < keys.size y.dict) (sym same) h in
      omega arith
  total-modify f (x ∷ dbs) (suc i) e h = omega (arith, total-modify f dbs i e h)

  size-evict_from :
      (lazy : Bool) (key : Sds) (db : KeySpace keys times) {o : Robj}
      → keys.find db.dict key ≡ some o
      → keys.size (evict_from keys times d lazy key db).dict < keys.size db.dict
  unfolding evict_from db_generic_delete
  size-evict_from lazy key db {o} e = rw (e, db_generic_delete) (keys.size-remove db.dict key o e)

  module _ (out : Outside keys times d) (s : Server) (policy : s.maxmemory_policy ≡ allkeys_random)
      (random_there : (tick : ℕ) (m : keys.Dict)
        → keys.size m ≢ 0
        → (o : Robj) × (keys.find m (out.random_key tick m) ≡ some o)) where
    -- The key that is picked at random is there, or there is none.
    abbrev Picked : State → Choice × State → Type 0
    Picked st result =
        (result.1.dbs ≡ st.dbs)
        × ((result.0 ≡ no_key)
            ⊎ ((t : Target) × (db : KeySpace keys times) × (o : Robj) × (result.0 ≡ best t)
                × (get_elem? st.dbs t.0 ≡ some db)
                × (keys.find db.dict t.1 ≡ some o)))

    pick_random-Picked : (n : ℕ) (st : State) → Picked st (pick_random keys times d n out true st)
    unfolding pick_random
    pick_random-Picked zero st = (refl, inl refl)
    pick_random-Picked (suc n) st =
        let next = (st.next_db + 1) % 2 ^ 32 in
        let later = pick_random-Picked n (record st { next_db = next }) in
        elim (Option-cases (get_elem? st.dbs (next % length st.dbs))) [
          | inl outside ↦ rw (outside, pick_random) later
          | inr (db, here) ↦ elim (Bool-cases (keys.size db.dict == 0)) [
            | inl empty ↦ rw (here, pick_random, empty) later
            | inr more ↦
                let (o, there) = random_there st.tick db.dict (ground arith) in
                rw (here, pick_random, more)
                  (
                    refl,
                    inr (
                      (next % length st.dbs, out.random_key st.tick db.dict),
                      db,
                      o,
                      refl,
                      here,
                      there,
                    ),
                  )
          ]
        ]

    pick_here :
        (fuel : ℕ) (st : State)
        → pick keys times d fuel out s st
          ≡ some (pick_random keys times d (length st.dbs) out true st)
    unfolding pick
    pick_here fuel st = rw (policy, pick) refl

    abbrev Ends : Option (Ending × State) → Type 0
    Ends result =
        (ending : Ending) × (st' : State) × (result ≡ some (ending, st')) × (ending ≢ going_on)

    evicted_total :
        (st mid : State) (t : Target) {db : KeySpace keys times} {o : Robj}
        → mid.dbs ≡ st.dbs
        → get_elem? st.dbs t.0 ≡ some db
        → keys.find db.dict t.1 ≡ some o
        → total (evict_key keys times d out t mid) < total st
    unfolding evict_key
    evicted_total st mid t {db} same at_db there =
        let lazy = out.lazyfree_lazy_eviction in
        subst
          (λ dbs.
            db_total_server_key_count keys times (modify t.0 (evict_from keys times d lazy t.1) dbs)
            < total st)
          (sym same)
          (total-modify (evict_from keys times d lazy t.1) st.dbs t.0 at_db
            (size-evict_from lazy t.1 db there))

    batch_dbs :
        (limit : ℕ) (gone : State) → (after_batch keys times d out limit gone).1.dbs ≡ gone.dbs
    batch_dbs limit gone =
        let same = (flush-Same keys times d out s gone).1 in
        elim (after_batch-cases keys times d out s limit gone) [
          | inl kept ↦ ap (λ b. b.1.dbs) kept ∙ same
          | inr (inl late) ↦ ap (λ b. b.1.dbs) late ∙ same
          | inr (inr still) ↦ ap (λ b. b.1.dbs) still ∙ same
        ]

    -- The loop ends within as many rounds as there are keys, and one.
    evict_loop-Ends :
        (n limit tofree : ℕ) (p : Progress) (st : State)
        → total st < n
        → Ends (evict_loop keys times d n out s limit tofree p st)
    unfolding evict_loop
    evict_loop-Ends zero limit tofree p st h = absurd (omega arith)
    evict_loop-Ends (suc n) limit tofree p st h =
        elim (Bool-cases (not (ltb p.freed (tofree + p.grown)))) [
          | inl done ↦ (enough, st, rw done refl, λ e. cc)
          | inr more ↦
              let picked = pick_random keys times d (length st.dbs) out true st in
              let (same_dbs, found) = pick_random-Picked (length st.dbs) st in
              elim found [
                | inl nothing ↦
                    (cant_free, picked.1, rw (more, pick_here (suc n) st, nothing) refl, λ e. cc)
                | inr (t, db, o, chosen, at_db, there) ↦
                    let gone = evict_key keys times d out t picked.1 in
                    let p' =
                      account p (memory_at keys times d out picked.1).used
                        (memory_at keys times d out gone).used in
                    let fewer = evicted_total st picked.1 t same_dbs at_db there in
                    let batch = after_batch keys times d out limit gone in
                    let flushed = batch.1 in
                    let same_flushed : total flushed ≡ total gone =
                      ap (db_total_server_key_count keys times) (batch_dbs limit gone) in
                    let goes_on = evict_loop-Ends n limit tofree p' gone (omega (arith, fewer)) in
                    let goes_on' =
                      evict_loop-Ends n limit tofree p' flushed
                        (omega (arith, fewer, same_flushed)) in
                    elim (Bool-cases (p'.keys_freed % 16 == 0)) [
                      | inr between ↦
                          let (ending, st', run, over) = goes_on in
                          (ending, st', rw (more, pick_here (suc n) st, chosen, between) run, over)
                      | inl sixteenth ↦ elim (Option-cases batch.0) [
                        | inr (last, stops) ↦ (
                          enough,
                          last,
                          rw (more, pick_here (suc n) st, chosen, sixteenth, stops) refl,
                          λ e. cc,
                        )
                        | inl still ↦
                            let (ending, st', run, over) = goes_on' in
                            (
                              ending,
                              st',
                              rw (more, pick_here (suc n) st, chosen, sixteenth, still) run,
                              over,
                            )
                      ]
                    ]
              ]
        ]

    module _ (ready : ℕ)
        (jobs_done : (tick : ℕ) → ready ≤ tick → out.pending_jobs tick ≡ false) where
      wait_lazyfree-ends :
          (n limit : ℕ) (st : State)
          → ready ≤ st.tick + n
          → (done : Bool) × (st' : State) × (wait_lazyfree keys times d (suc n) out limit st
              ≡ some (done, st'))
      unfolding wait_lazyfree
      wait_lazyfree-ends zero limit st h =
          let stopped = jobs_done st.tick (omega arith) in
          (false, st, rw (stopped, wait_lazyfree) refl)
      wait_lazyfree-ends (suc n) limit st h =
          elim (Bool-cases (out.pending_jobs st.tick && ltb (out.elapsed_us st.tick) limit)) [
            | inr idle ↦ (false, st, rw (idle, wait_lazyfree) refl)
            | inl pending ↦
                elim (Bool-cases
                  (not (get_maxmemory_state (memory_at keys times d out st) false).over)) [
                    | inl below ↦ (true, st, rw (pending, wait_lazyfree, below) refl)
                    | inr over ↦
                        let (done, st', run) =
                          wait_lazyfree-ends n limit (record st { tick = st.tick + 1 })
                            (omega arith) in
                        (done, st', rw (pending, wait_lazyfree, over) run)
                  ]
          ]

      conclude-ends :
          (n limit : ℕ) (ending : Ending) (st : State)
          → ready ≤ n
          → ending ≢ going_on
          → (r : Result × State) × (conclude keys times d (suc n) out limit ending st ≡ some r)
      unfolding conclude
      conclude-ends n limit enough st h over =
          ((if st.proc_running then evict_running else evict_ok, st), refl)
      conclude-ends n limit cant_free st h over =
          let (done, st', run) = wait_lazyfree-ends n limit st (omega arith) in
          ((if done then evict_ok else evict_fail, st'), >>=-some _ run refl)
      conclude-ends n limit going_on st h over = absurd (over refl)

      -- Under the policy allkeys-random `performEvictions` returns, whatever there is to free,
      -- where `dictGetRandomKey` gives a key that is there, the other thread has done its jobs by
      -- some tick, no command is left to propagate, as the code asserts, and the tenacity is at
      -- most 100: as many rounds as there are keys, and as many as that tick, and one more, are
      -- enough for its loops.
      pub perform_evictions-returns :
          (n : ℕ) (st : State)
          → s.maxmemory_eviction_tenacity ≤ 100
          → out.also_propagate_numops ≡ 0
          → total st ≤ n
          → ready ≤ n
          → (r : Result × State) × (perform_evictions keys times d (suc n) out s st ≡ some r)
      unfolding perform_evictions eviction_time_limit_us
      perform_evictions-returns n st tenacity none_pending few late =
          elim (Bool-cases (not (is_safe_to_perform_evictions keys times d out s))) [
            | inl unsafe ↦ ((evict_ok, st), rw (unsafe, perform_evictions) refl)
            | inr safe ↦
                elim (Bool-cases
                  (not (get_maxmemory_state (memory_at keys times d out st) false).over)) [
                    | inl below ↦ (
                      with_metrics keys times d out (evict_ok, st),
                      rw (safe, below, perform_evictions) refl,
                    )
                    | inr over ↦
                        let (tofree, e1) = to_free over in
                        let (limit, e2) = time_limit in
                        let asserted : assert_no_propagation keys times d out ≡ some 0 =
                          rw none_pending refl in
                        let (ending, st', e3, ends) =
                          evict_loop-Ends (suc n) limit tofree
                            (record { freed = 0; grown = 0; keys_freed = 0 }) st (omega arith) in
                        let (r, e4) = conclude-ends n limit ending st' late ends in
                        let random : (s.maxmemory_policy == no_eviction) ≡ false = rw policy refl in
                        (
                          with_metrics keys times d out r,
                          rw (safe, over, random, perform_evictions)
                              (>>=-some _ e1 (
                                >>=-some _ e2
                                  (>>=-some _ asserted (>>=-some _ e3 (>>=-some _ e4 refl))))),
                        )
                  ]
          ]
        where
          to_free :
              not (get_maxmemory_state (memory_at keys times d out st) false).over ≡ false
              → (tofree : ℕ) × ((get_maxmemory_state (memory_at keys times d out st) false).tofree
                  ≡ some tofree)
          to_free over =
              let memory = memory_at keys times d out st in
              let above : (get_maxmemory_state memory false).over ≡ true = ground arith in
              (
                memory.used - free_memory_get_not_counted_memory memory - memory.maxmemory,
                (get_maxmemory_state-over memory false).2 ∙ rw above refl,
              )

          time_limit :
              (limit : ℕ) × (eviction_time_limit_us out.time_limit s.maxmemory_eviction_tenacity
                ≡ some limit)
          time_limit =
              let level = s.maxmemory_eviction_tenacity in
              let allowed : ltb 100 level ≡ false = ground (arith, tenacity) in
              elim (Bool-cases (leb level 10)) [
                | inl low ↦ (50 * level, rw (allowed, low) refl)
                | inr high ↦ elim (Bool-cases (ltb level 100)) [
                  | inl middle ↦ (out.time_limit (level - 10), rw (allowed, high, middle) refl)
                  | inr full ↦ (2 ^ 64 - 1, rw (allowed, high, full) refl)
                ]
              ]
