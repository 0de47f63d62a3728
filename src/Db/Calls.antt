-- ===== src/Db/Calls.antt =====
-- The calls of db.c around `lookupKey`, `dbAddInternal` and `dbGenericDelete`, and `dbRandomKey`.
use red_opt.Base.{
  ℕ, zero, suc, ◌-◌, ◌≤◌, ◌≡◌, ◌∙◌, ◌⊎◌, sym, ap, inl, inr, Bool, true, false, ◌&&◌, Option, none,
  some,
}
use red_opt.Base.{Option-cases, Bool-cases, ◌==◌, if◌then◌else◌, arith}
use red_opt.Server.{Server}
use red_opt.Double.{Double}
use red_opt.Object.{Robj, init_object_lru_or_lfu}
use red_opt.Pool.{Sds}
use red_opt.Dict.{DictApi}
use red_opt.Db.{
  Context, LookupFlags, KeySpace, lookup_key, db_add_internal, db_set_value, db_generic_delete,
  expire_if_needed,
}
use red_opt.Db.{get_expire, expire_now, key_is_expired}
use red_opt.Db.Lookup.{get_expire-find, expire_if_needed-cases}

module _ (keys : DictApi Robj) (times : DictApi ℕ) (d : Double) where
  -- `none` is the failed assertion.
  pub lookup_key_read_with_flags :
      Server
      → Context
      → KeySpace keys times
      → Sds
      → LookupFlags
      → Option (Option Robj × KeySpace keys times)
  lookup_key_read_with_flags s c db key flags =
      if flags.write then none else some (lookup_key keys times d s c db key flags)

  pub lookup_key_write_with_flags :
      Server → Context → KeySpace keys times → Sds → LookupFlags → Option Robj × KeySpace keys times
  lookup_key_write_with_flags s c db key flags =
      lookup_key keys times d s c db key (record flags { write = true })

  pub db_add : Server → KeySpace keys times → Sds → Robj → Option (KeySpace keys times)
  db_add s db key val = db_add_internal keys times d s db key val false

  pub db_replace_value : KeySpace keys times → Sds → Robj → Option (KeySpace keys times)
  db_replace_value db key val = db_set_value keys times d db key val false

  -- Whether the key has been added.
  unfoldable pub db_add_rdb_load :
      Server → KeySpace keys times → Sds → Robj → Bool × KeySpace keys times
  db_add_rdb_load s db key val = elim (keys.find db.dict key) [
    | some old ↦ (false, db)
    | none ↦ (true, record db { dict = keys.put db.dict key (init_object_lru_or_lfu s val) })
  ]

  -- Freeing a value in another thread makes no difference to the key space.
  pub db_sync_delete : KeySpace keys times → Sds → Bool × KeySpace keys times
  db_sync_delete db key = db_generic_delete keys times db key

  -- `all_volatile` and `maxtries` with the rounds left; `random` is what `dictGetFairRandomKey`
  -- gives in each round. `none` is a loop that is not at its end, otherwise the key or NULL.
  unfoldable pub random_rounds :
      ℕ
      → (ℕ → keys.Dict → Option Sds)
      → Server
      → Context
      → Bool
      → ℕ
      → KeySpace keys times
      → Option (Option Sds × KeySpace keys times)
  random_rounds zero random s c all_volatile maxtries db = none
  random_rounds (suc n) random s c all_volatile maxtries db = elim (random n db.dict) [
    | none ↦ some (none, db)
    | some key ↦
        let checked = expire_if_needed keys times s c db key false false in
        let counting = all_volatile && s.masterhost in
        let left = if counting then maxtries - 1 else maxtries in
        let again = random_rounds n random s c all_volatile left checked.1 in
        elim (times.find db.expires key) [
          | none ↦ some (some key, db)
          | some when ↦
              if counting && left == 0
              then some (some key, db)
              else if checked.0
              then again
              else some (some key, checked.1)
        ]
  ]

  unfoldable pub db_random_key :
      ℕ
      → (ℕ → keys.Dict → Option Sds)
      → Server
      → Context
      → KeySpace keys times
      → Option (Option Sds × KeySpace keys times)
  db_random_key fuel random s c db =
      random_rounds fuel random s c (keys.size db.dict == times.size db.expires) 100 db

  -- The key has no time, or its time has not passed.
  abbrev pub Alive : Context → KeySpace keys times → Sds → Type 0
  Alive c db key =
      (times.find db.expires key ≡ none)
      ⊎ ((when : ℕ) × (times.find db.expires key ≡ some when) × (c.now ≤ when))

  -- What `expireIfNeeded` does not report, on a master that expires keys, is not expired.
  unreported-Alive :
      (s : Server) (c : Context) (db : KeySpace keys times) (key : Sds)
      → s.masterhost ≡ false
      → s.loading ≡ false
      → s.lazy_expire_disabled ≡ false
      → (expire_if_needed keys times s c db key false false).0 ≡ false
      → Alive c db key
  unfolding expire_if_needed expire_now key_is_expired
  unreported-Alive s c db key m l z e = elim (Option-cases (times.find db.expires key)) [
    | inl timeless ↦ inl timeless
    | inr (when, timed) ↦
        let known : get_expire keys times db key ≡ some when =
          get_expire-find keys times db key ∙ timed in
        inr (when, timed, ground arith)
  ]

  unchanged :
      (s : Server) (c : Context) (db : KeySpace keys times) (key : Sds)
      → (expire_if_needed keys times s c db key false false).0 ≡ false
      → (expire_if_needed keys times s c db key false false).1 ≡ db
  unchanged s c db key h = elim (expire_if_needed-cases keys times s c db key false false) [
    | inl same ↦ ap (λ out. out.1) same
    | inr (inl same) ↦ cc
    | inr (inr gone) ↦ cc
  ]

  same_key :
      {S : Type 0} {a b : Sds} {x y : S}
      → ◌≡◌ {A = Option (Option Sds × S)} (some (some a, x)) (some (some b, y))
      → (a ≡ b) × (x ≡ y)
  same_key e = (cc, cc)

  random_rounds-Alive :
      (n : ℕ) (random : ℕ → keys.Dict → Option Sds) (s : Server) (c : Context) (all_volatile : Bool)
      (maxtries : ℕ) (db : KeySpace keys times) {key : Sds} {db' : KeySpace keys times}
      → s.masterhost ≡ false
      → s.loading ≡ false
      → s.lazy_expire_disabled ≡ false
      → random_rounds n random s c all_volatile maxtries db ≡ some (some key, db')
      → Alive c db' key
  unfolding random_rounds
  random_rounds-Alive zero random s c all_volatile maxtries db m l z e = cc
  random_rounds-Alive (suc n) random s c all_volatile maxtries db {key} {db'} m l z e =
      let still : (all_volatile && s.masterhost) ≡ false = ground arith in
      elim (Option-cases (random n db.dict)) [
        | inl empty ↦ let e1 = rw (empty, random_rounds) at e in cc
        | inr (k, got) ↦ elim (Option-cases (times.find db.expires k)) [
          | inl timeless ↦
              let (same, same_db) = same_key (rw (got, random_rounds, timeless) at e) in
              rw (sym same, sym same_db) (inl timeless)
          | inr (when, timed) ↦
              elim (Bool-cases (expire_if_needed keys times s c db k false false).0) [
                | inl expired ↦
                    random_rounds-Alive n random s c all_volatile _
                      (expire_if_needed keys times s c db k false false).1 m l z
                      (rw (got, random_rounds, timed, expired, still) at e)
                | inr alive ↦
                    let (same, same_db) =
                      same_key (rw (got, random_rounds, timed, alive, still) at e) in
                    rw (sym same, sym same_db, unchanged s c db k alive)
                      (unreported-Alive s c db k m l z alive)
              ]
        ]
      ]

  -- On a master that is not loading and has not switched the expiry of keys off, a key that
  -- `dbRandomKey` returns has, in the key space that is left, no time, or one that has not passed.
  pub db_random_key-Alive :
      (fuel : ℕ) (random : ℕ → keys.Dict → Option Sds) (s : Server) (c : Context)
      (db : KeySpace keys times) {key : Sds} {db' : KeySpace keys times}
      → s.masterhost ≡ false
      → s.loading ≡ false
      → s.lazy_expire_disabled ≡ false
      → db_random_key fuel random s c db ≡ some (some key, db')
      → Alive c db' key
  unfolding db_random_key
  db_random_key-Alive fuel random s c db m l z e =
      random_rounds-Alive fuel random s c _ 100 db m l z e
