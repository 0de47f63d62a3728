-- ===== src/Evict/Cycle/Random.antt =====
-- The loop of the random policies over the databases, in `performEvictions` (evict.c).
use red_opt.Base.{
  ℕ, zero, suc, ◌+◌, ◌-◌, ◌%◌, ◌^◌, ◌≤◌, ◌<◌, ◌≡◌, ◌≢◌, refl, sym, ap, ◌∙◌, Bool, some,
}
use red_opt.Base.{get_elem?, length, ◌==◌, Bool-cases, Option-cases, inl, inr, arith}
use native.Mathlib.Decide.{dec_le}
use native.Mathlib.Nat.{mod-add-mod, add-mod_right, mod-eq_of_lt, mod-lt}
use red_opt.Double.{Double}
use red_opt.Object.{Robj}
use red_opt.Dict.{DictApi}
use red_opt.Db.{KeySpace}
use red_opt.Evict.Cycle.{Choice, best, Outside, Eviction, dict_size, random_of, pick_random}

-- Counting on from `m`, every number below `n` is met within `n` steps.
met : (m n j : ℕ) → j < n → (i : ℕ) × (0 < i) × (i ≤ n) × ((m + i) % n ≡ j)
met m n j h =
    let below = mod-lt m {m = n} (omega arith) in
    elim (dec_le j (m % n)) [
      | no above ↦
          let i = j - m % n in
          let sum : m % n + i ≡ j = omega arith in
          (
            i,
            omega arith,
            omega arith,
            sym (mod-add-mod m n i) ∙ ap (λ x. x % n) sum ∙ mod-eq_of_lt h,
          )
      | yes round ↦
          let i = j + n - m % n in
          let sum : m % n + i ≡ j + n = omega arith in
          (
            i,
            omega arith,
            omega arith,
            sym (mod-add-mod m n i) ∙ ap (λ x. x % n) sum ∙ add-mod_right j n ∙ mod-eq_of_lt h,
          )
    ]

module _ (keys : DictApi Robj) (times : DictApi ℕ) (d : Double) (out : Outside keys times d)
    (all : Bool) where
  -- A key has been chosen, in a database that has some, by `dictGetRandomKey`.
  abbrev pub Found : Eviction keys times d → Choice × Eviction keys times d → Type 0
  Found st result =
      (j : ℕ) × (db : KeySpace keys times) × (st' : Eviction keys times d) × (result
        ≡ (best (j, random_of keys times d out all st.tick db), st'))
      × (get_elem? st.dbs j ≡ some db)
      × (dict_size keys times d all db ≢ 0)
      × (st'.dbs ≡ st.dbs)

  within_turns :
      (k i : ℕ) (st : Eviction keys times d) (db : KeySpace keys times)
      → 0 < i
      → i ≤ k
      → st.next_db + i < 2 ^ 32
      → get_elem? st.dbs ((st.next_db + i) % length st.dbs) ≡ some db
      → dict_size keys times d all db ≢ 0
      → Found st (pick_random keys times d k out all st)
  unfolding pick_random
  within_turns zero i st db p l w at_db some_key = absurd (omega arith)
  within_turns (suc k) i st db p l w at_db some_key =
      let next = (st.next_db + 1) % 2 ^ 32 in
      let one : next ≡ st.next_db + 1 = omega arith in
      let moved = record st { next_db = next } in
      let later : i ≢ 1 → Found st (pick_random keys times d k out all moved) = λ ne.
        let same : next + (i - 1) ≡ st.next_db + i = omega arith in
        within_turns k (i - 1) moved db (omega arith) (omega arith) (omega arith)
          (ap (λ x. get_elem? st.dbs (x % length st.dbs)) same ∙ at_db) some_key in
      let first : i ≡ 1 → get_elem? st.dbs (next % length st.dbs) ≡ some db = λ e.
        let same : next ≡ st.next_db + i = omega arith in
        ap (λ x. get_elem? st.dbs (x % length st.dbs)) same ∙ at_db in
      elim (Option-cases (get_elem? st.dbs (next % length st.dbs))) [
        | inl outside ↦ rw (outside, pick_random) (later (λ e. cc (first e)))
        | inr (x, here) ↦ elim (Bool-cases (dict_size keys times d all x == 0)) [
          | inl empty ↦
              rw (here, pick_random, empty)
                (later (λ e.
                  let same : x ≡ db = cc (first e) in
                  let zero_size : dict_size keys times d all x ≡ 0 = ground arith in
                  some_key (ap (dict_size keys times d all) (sym same) ∙ zero_size)))
          | inr more ↦
              let sized : dict_size keys times d all x ≢ 0 = ground arith in
              rw (here, pick_random, more)
                (
                  next % length st.dbs,
                  x,
                  record moved { tick = st.tick + 1 },
                  refl,
                  here,
                  sized,
                  refl,
                )
        ]
      ]

  -- Under a random policy, if some database has a key in the dictionary that is sampled, one turn
  -- over the databases (before the counter wraps round) chooses a key: the one that
  -- `dictGetRandomKey` gives for a database that has some. No database has changed.
  pub pick_random-Found :
      (st : Eviction keys times d) (j : ℕ) (db : KeySpace keys times)
      → j < length st.dbs
      → get_elem? st.dbs j ≡ some db
      → dict_size keys times d all db ≢ 0
      → st.next_db + length st.dbs < 2 ^ 32
      → Found st (pick_random keys times d (length st.dbs) out all st)
  pick_random-Found st j db h at_db some_key w =
      let (i, p, l, e) = met st.next_db (length st.dbs) j h in
      within_turns (length st.dbs) i st db p l (omega arith) (ap (get_elem? st.dbs) e ∙ at_db)
        some_key
