-- ===== src/Db/Lookup.antt =====
-- What `lookupKey` and the expiry of a key do to the key space.
use red_opt.Base.{
  ℕ, ◌+◌, ◌<◌, ◌≡◌, ◌≢◌, ◌∙◌, sym, ap, ◌↔◌, ◌⊎◌, refl, inl, inr, Bool, true, false, not, ◌&&◌, ◌||◌,
}
use red_opt.Base.{Option, none, some, Option-cases, arith, if◌then◌else◌}
use mathlib.Core.Path.{subst}
use red_opt.Server.{Server}
use red_opt.Double.{Double}
use red_opt.Object.{Robj}
use red_opt.Pool.{Sds}
use red_opt.Dict.{DictApi, sds_eq, sds_eq_iff}
use red_opt.Db.{Context, LookupFlags, KeySpace, get_expire, key_is_expired, db_generic_delete}
use red_opt.Db.{
  delete_expired_key_and_propagate, expire_now, expire_if_needed, touch_object, lookup_key,
  missed_key, found_key,
}

sds_eq_self : (k : Sds) → sds_eq k k ≡ true
sds_eq_self k = (sds_eq_iff k k).1 refl

module _ (keys : DictApi Robj) (times : DictApi ℕ) where
  pub get_expire-find :
      (db : KeySpace keys times) (key : Sds)
      → get_expire keys times db key ≡ times.find db.expires key
  unfolding get_expire
  get_expire-find db key = ground (arith, times.find_of_size_zero db.expires key)

  pub delete_present :
      (db : KeySpace keys times) (key j : Sds) (o : Robj)
      → keys.find db.dict key ≡ some o
      → (keys.find (db_generic_delete keys times db key).1.dict j
          ≡ (if sds_eq key j then none else keys.find db.dict j))
        × (times.find (db_generic_delete keys times db key).1.expires j
            ≡ (if sds_eq key j then none else times.find db.expires j))
        × ((db_generic_delete keys times db key).0 ≡ true)
  unfolding db_generic_delete
  delete_present db key j o e =
      rw (e, db_generic_delete)
        (
          keys.find-remove db.dict key j,
          ground (arith, times.find-remove db.expires key j, times.find_of_size_zero db.expires j),
          refl,
        )

  delete_stat :
      (db : KeySpace keys times) (key : Sds)
      → (db_generic_delete keys times db key).1.stat_expiredkeys ≡ db.stat_expiredkeys
  unfolding db_generic_delete
  delete_stat db key = elim (Option-cases (keys.find db.dict key)) [
    | inl absent ↦ rw (absent, db_generic_delete) refl
    | inr (o, e) ↦ rw (e, db_generic_delete) refl
  ]

  -- A deletion leaves no value and no time of the key, and every other key with its value and
  -- its time; it returns whether the key was there, and changes nothing where it was not.
  pub db_generic_delete-find :
      (db : KeySpace keys times) (key j : Sds)
      → ((keys.find db.dict key ≡ none) × (db_generic_delete keys times db key ≡ (false, db)))
        ⊎ (((db_generic_delete keys times db key).0 ≡ true)
            × (keys.find (db_generic_delete keys times db key).1.dict j
                ≡ (if sds_eq key j then none else keys.find db.dict j))
            × (times.find (db_generic_delete keys times db key).1.expires j
                ≡ (if sds_eq key j then none else times.find db.expires j)))
  unfolding db_generic_delete
  db_generic_delete-find db key j = elim (Option-cases (keys.find db.dict key)) [
    | inl absent ↦ inl (absent, rw (absent, db_generic_delete))
    | inr (o, e) ↦
        let (found, time, there) = delete_present db key j o e in inr (there, found, time)
  ]

  -- `expireIfNeeded` deletes a key only if it reports it as expired; otherwise nothing changes.
  pub expire_if_needed-cases :
      (s : Server) (c : Context) (db : KeySpace keys times) (key : Sds) (force avoid : Bool)
      → (expire_if_needed keys times s c db key force avoid ≡ (false, db))
        ⊎ (expire_if_needed keys times s c db key force avoid ≡ (true, db))
        ⊎ (expire_if_needed keys times s c db key force avoid
            ≡ (true, delete_expired_key_and_propagate keys times c db key))
  unfolding expire_if_needed expire_now
  expire_if_needed-cases s c db key force avoid = ground arith

  -- On a master that is not loading, a key whose time has passed is deleted by
  -- `expireIfNeeded` (called with no flags, with expiry neither disabled nor paused): neither its
  -- value nor its time is left, every other key has kept both, and the statistics count it.
  pub expire_if_needed-expires :
      (s : Server) (c : Context) (db : KeySpace keys times) (key j : Sds) {o : Robj} {when : ℕ}
      → s.masterhost ≡ false
      → s.loading ≡ false
      → s.lazy_expire_disabled ≡ false
      → c.paused_expire ≡ false
      → keys.find db.dict key ≡ some o
      → times.find db.expires key ≡ some when
      → when < c.now
      → let (expired, db') = expire_if_needed keys times s c db key false false in
        (expired ≡ true)
        × (keys.find db'.dict j ≡ (if sds_eq key j then none else keys.find db.dict j))
        × (times.find db'.expires j ≡ (if sds_eq key j then none else times.find db.expires j))
        × (db'.stat_expiredkeys ≡ db.stat_expiredkeys + 1)
  unfolding expire_if_needed expire_now key_is_expired get_expire delete_expired_key_and_propagate
  expire_if_needed-expires s c db key j {o} {when} m l d p e t h =
      let (found, time, there) = delete_present db key j o e in
      let known : times.size db.expires ≢ 0 = λ z. cc (times.find_of_size_zero db.expires key z) in
      let same = delete_stat db key in ground arith

  -- After `expireIfNeeded` another key has its value.
  expire_if_needed-other :
      (s : Server) (c : Context) (db : KeySpace keys times) (key j : Sds) (force avoid : Bool)
      {o : Robj}
      → keys.find db.dict key ≡ some o
      → sds_eq key j ≡ false
      → keys.find (expire_if_needed keys times s c db key force avoid).1.dict j
        ≡ keys.find db.dict j
  unfolding delete_expired_key_and_propagate
  expire_if_needed-other s c db key j force avoid {o} e ne =
      elim (expire_if_needed-cases s c db key force avoid) [
        | inl same ↦ ap (λ out. keys.find out.1.dict j) same
        | inr (inl same) ↦ ap (λ out. keys.find out.1.dict j) same
        | inr (inr gone) ↦
            ap (λ out. keys.find out.1.dict j) gone ∙ (delete_present db key j o e).0 ∙ rw ne
      ]

  -- After `expireIfNeeded` another key has its time.
  expire_if_needed-times :
      (s : Server) (c : Context) (db : KeySpace keys times) (key j : Sds) (force avoid : Bool)
      {o : Robj}
      → keys.find db.dict key ≡ some o
      → sds_eq key j ≡ false
      → times.find (expire_if_needed keys times s c db key force avoid).1.expires j
        ≡ times.find db.expires j
  unfolding delete_expired_key_and_propagate
  expire_if_needed-times s c db key j force avoid {o} e ne =
      elim (expire_if_needed-cases s c db key force avoid) [
        | inl same ↦ ap (λ out. times.find out.1.expires j) same
        | inr (inl same) ↦ ap (λ out. times.find out.1.expires j) same
        | inr (inr gone) ↦
            ap (λ out. times.find out.1.expires j) gone ∙ (delete_present db key j o e).1 ∙ rw ne
      ]

  module _ (d : Double) (s : Server) (c : Context) (db : KeySpace keys times) (key : Sds)
      (flags : LookupFlags) where
    -- `expireIfNeeded` as `lookupKey` calls it.
    abbrev pub expiry : Bool × KeySpace keys times
    expiry =
        expire_if_needed keys times s c db key
          (flags.write && not (s.masterhost && s.repl_slave_ro)) flags.noexpire

    -- The three ways through `lookupKey`.
    pub lookup_key-cases :
        ((keys.find db.dict key ≡ none)
          × (lookup_key keys times d s c db key flags ≡ missed_key keys times d flags key db))
        ⊎ ((o : Robj) × (keys.find db.dict key ≡ some o)
            × (lookup_key keys times d s c db key flags ≡ (
                if expiry.0
                then missed_key keys times d flags key expiry.1
                else found_key keys times d s c flags key o expiry.1)))
    unfolding lookup_key
    lookup_key-cases = elim (Option-cases (keys.find db.dict key)) [
      | inl absent ↦ inl (absent, rw (absent, lookup_key))
      | inr (o, e) ↦ inr (o, e, rw (e, lookup_key))
    ]

    missed-same :
        (j : Sds) → keys.find (missed_key keys times d flags key db).1.dict j ≡ keys.find db.dict j
    missed-same j = ground arith

    outcome-other :
        (b : Bool) (o : Robj) (db' : KeySpace keys times) (j : Sds)
        → sds_eq key j ≡ false
        → keys.find
            (if b
              then missed_key keys times d flags key db'
              else found_key keys times d s c flags key o db').1.dict
            j
          ≡ keys.find db'.dict j
    outcome-other true o db' j ne = ground arith
    outcome-other false o db' j ne =
        keys.find-put db'.dict key (touch_object keys times d s c flags.notouch o) j ∙ rw ne

    outcome-times :
        (b : Bool) (o : Robj) (db' : KeySpace keys times) (j : Sds)
        → times.find
            (if b
              then missed_key keys times d flags key db'
              else found_key keys times d s c flags key o db').1.expires
            j
          ≡ times.find db'.expires j
    outcome-times true o db' j = ground arith
    outcome-times false o db' j = ground arith

    -- Whatever a lookup does, every other key has its value.
    pub lookup_key-values :
        (j : Sds)
        → sds_eq key j ≡ false
        → keys.find (lookup_key keys times d s c db key flags).1.dict j ≡ keys.find db.dict j
    lookup_key-values j ne = elim lookup_key-cases [
      | inl (absent, e) ↦ ap (λ out. keys.find out.1.dict j) e ∙ missed-same j
      | inr (o, there, e) ↦
          ap (λ out. keys.find out.1.dict j) e
          ∙ outcome-other expiry.0 o expiry.1 j ne
          ∙ expire_if_needed-other s c db key j
              (flags.write && not (s.masterhost && s.repl_slave_ro)) flags.noexpire there ne
    ]

    lookup_key-times :
        (j : Sds)
        → sds_eq key j ≡ false
        → times.find (lookup_key keys times d s c db key flags).1.expires j
          ≡ times.find db.expires j
    lookup_key-times j ne = elim lookup_key-cases [
      | inl (absent, e) ↦ ap (λ out. times.find out.1.expires j) e ∙ ground arith
      | inr (o, there, e) ↦
          ap (λ out. times.find out.1.expires j) e
          ∙ outcome-times expiry.0 o expiry.1 j
          ∙ expire_if_needed-times s c db key j
              (flags.write && not (s.masterhost && s.repl_slave_ro)) flags.noexpire there ne
    ]

    -- A lookup, whatever it finds, expires or touches, leaves every other key with its value and
    -- with its time, or without one.
    pub lookup_key-other :
        (j : Sds)
        → sds_eq key j ≡ false
        → let db' = (lookup_key keys times d s c db key flags).1 in
          (keys.find db'.dict j ≡ keys.find db.dict j)
          × (times.find db'.expires j ≡ times.find db.expires j)
    lookup_key-other j ne = (lookup_key-values j ne, lookup_key-times j ne)

    -- What a lookup counts: a hit where it finds a value, a miss where it does not, and neither
    -- under the flags of a write or of no statistics.
    abbrev pub Counted : Option Robj × KeySpace keys times → KeySpace keys times → Type 0
    Counted out db' =
        (out.1.stat_keyspace_hits
          ≡ db'.stat_keyspace_hits
            + (if flags.nostats || flags.write then 0 else elim out.0 [ some v ↦ 1 | none ↦ 0 ]))
        × (out.1.stat_keyspace_misses
            ≡ db'.stat_keyspace_misses
              + (if flags.nostats || flags.write then 0 else elim out.0 [ some v ↦ 0 | none ↦ 1 ]))

    outcome-Counted :
        (b : Bool) (o : Robj) (db' : KeySpace keys times)
        → Counted
            (if b
              then missed_key keys times d flags key db'
              else found_key keys times d s c flags key o db')
            db'
    outcome-Counted true o db' = ground arith
    outcome-Counted false o db' = ground arith

    same_counts :
        (expiry.1.stat_keyspace_hits ≡ db.stat_keyspace_hits)
        × (expiry.1.stat_keyspace_misses ≡ db.stat_keyspace_misses)
    unfolding delete_expired_key_and_propagate db_generic_delete
    same_counts =
        elim (expire_if_needed-cases s c db key
          (flags.write && not (s.masterhost && s.repl_slave_ro)) flags.noexpire) [
            | inl same ↦ rw same (refl, refl)
            | inr (inl same) ↦ rw same (refl, refl)
            | inr (inr gone) ↦ rw gone (ground arith)
          ]

    -- A lookup finds a value exactly when the key is there and `expireIfNeeded` does not report
    -- it as expired.
    pub lookup_key-found :
        ((lookup_key keys times d s c db key flags).0 ≢ none)
        ↔ ((keys.find db.dict key ≢ none) × (expiry.0 ≡ false))
    lookup_key-found = elim lookup_key-cases [
      | inl (absent, e) ↦ (λ h. absurd (h (ap (λ out. out.0) e)), λ h. absurd (h.0 absent))
      | inr (o, there, e) ↦ ground (arith, e, there)
    ]

    -- A lookup counts one hit where it finds a value and one miss where it does not, and neither
    -- where its flags say that it is for a write or without statistics.
    pub lookup_key-Counted : Counted (lookup_key keys times d s c db key flags) db
    lookup_key-Counted = elim lookup_key-cases [
      | inl (absent, e) ↦ rw e (ground arith)
      | inr (o, there, e) ↦
          let counted = outcome-Counted expiry.0 o expiry.1 in
          subst (λ out. Counted out db) (sym e) (ground (arith, counted, same_counts))
    ]
