-- ===== src/Evict/Cycle/Picks.antt =====
-- The choice of a key in `performEvictions`, for what it does to the state (evict.c).
use red_opt.Base.{ℕ, zero, suc, ◌+◌, ◌%◌, ◌^◌, ◌≡◌, refl}
use red_opt.Base.{Bool, some, >>=-eq-some, length, get_elem?}
use red_opt.Base.{◌==◌, Bool-cases, Option-cases, inl, inr}
use mathlib.Core.Path.{subst}
use red_opt.Server.{Server, flag_allkeys, allkeys_random}
use red_opt.Double.{Double}
use red_opt.Object.{Robj}
use red_opt.Pool.{by_idle, pool_size}
use red_opt.Dict.{DictApi}
use red_opt.Evict.{scan}
use red_opt.Evict.Best.{scan-Chosen}
use red_opt.Evict.Cycle.{Choice}
use red_opt.Evict.Cycle.{Outside, Eviction, dict_size, populate_dbs}
use red_opt.Evict.Cycle.{key_exists, pick_best, pick_random, pick, uses_pool, is_random}
use red_opt.Evict.Cycle.Shrink.{Evicts, quiet, Evicts-trans}
use red_opt.Evict.Cycle.Refills.{populate_dbs-Evicts}

module _ (keys : DictApi Robj) (times : DictApi ℕ) (d : Double) (out : Outside keys times d)
    (s : Server) where
  abbrev State : Type 0
  State = Eviction keys times d

  abbrev Steps : State → State → Type 0
  Steps = Evicts keys times d

  -- Nothing is done.
  pub still : {st st' : State} → st ≡ st' → Steps st st'
  still {st} same = subst (Steps st) same (quiet keys times d (λ p. p) refl refl)

  pick_best-Evicts :
      (fuel : ℕ) (st : State) {c : Choice} {st' : State}
      → pick_best keys times d fuel out s st ≡ some (c, st')
      → Steps st st'
  unfolding pick_best
  pick_best-Evicts zero st {c} {st'} e = let same : st ≡ st' = cc in still same
  pick_best-Evicts (suc n) st {c} {st'} e =
      let (populated, e1, e2) = >>=-eq-some (populate_dbs keys times d out s 0 st.dbs 0 st) _ e in
      let mid = populated.1 in
      let filled = populate_dbs-Evicts keys times d out s 0 st.dbs 0 st e1 in
      let exists = key_exists keys times d (flag_allkeys s.maxmemory_policy) mid.dbs in
      let scanned = scan (d.of_ℕ 0) mid.pool.bufs exists pool_size mid.pool.entries in
      let left : State = record mid {
        pool = record { entries = scanned.1; bufs = mid.pool.bufs };
      } in
      let emptied : Steps mid left =
        quiet keys times d
          (λ p. record {
            packed =
                (scan-Chosen by_idle (d.of_ℕ 0) mid.pool.bufs exists mid.pool.entries p.packed).0;
            fits = p.fits;
          })
          refl refl in
      elim (Bool-cases (populated.0 == 0)) [
        | inl empty ↦
            let e3 = rw empty at e2 in
            let same : mid ≡ st' = cc in Evicts-trans keys times d filled (still same)
        | inr more ↦ Evicts-trans keys times d filled (
            Evicts-trans keys times d emptied (elim (Option-cases scanned.0) [
              | inl none_left ↦ pick_best-Evicts n left (rw (more, none_left) at e2)
              | inr (u, found) ↦
                  let e3 = rw (more, found) at e2 in let same : left ≡ st' = cc in still same
            ]))
      ]

  pick_random-Evicts :
      (n : ℕ) (all : Bool) (st : State) → Steps st (pick_random keys times d n out all st).1
  unfolding pick_random
  pick_random-Evicts zero all st = still refl
  pick_random-Evicts (suc n) all st =
      let next = (st.next_db + 1) % 2 ^ 32 in
      let moved : State = record st { next_db = next } in
      let later =
        Evicts-trans keys times d (quiet keys times d {st = st} {st' = moved} (λ p. p) refl refl)
          (pick_random-Evicts n all moved) in
      elim (Option-cases (get_elem? st.dbs (next % length st.dbs))) [
        | inl outside ↦ rw (outside, pick_random) later
        | inr (db, here) ↦ elim (Bool-cases (dict_size keys times d all db == 0)) [
          | inl empty ↦ rw (here, pick_random, empty) later
          | inr more ↦ rw (here, pick_random, more) (quiet keys times d (λ p. p) refl refl)
        ]
      ]

  pub pick-Evicts :
      (fuel : ℕ) (st : State) {c : Choice} {st' : State}
      → pick keys times d fuel out s st ≡ some (c, st')
      → Steps st st'
  unfolding pick
  pick-Evicts fuel st {c} {st'} e = elim (Bool-cases (uses_pool s.maxmemory_policy)) [
    | inl pooled ↦ pick_best-Evicts fuel st (rw pooled at e)
    | inr other ↦ elim (Bool-cases (is_random s.maxmemory_policy)) [
      | inl random ↦
          let all = s.maxmemory_policy == allkeys_random in
          let e' = rw (other, random) at e in
          let same : (pick_random keys times d (length st.dbs) out all st).1 ≡ st' = cc in
          subst (Steps st) same (pick_random-Evicts (length st.dbs) all st)
      | inr neither ↦ let e' = rw (other, neither) at e in let same : st ≡ st' = cc in still same
    ]
  ]
