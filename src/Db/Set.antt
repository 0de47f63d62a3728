-- ===== src/Db/Set.antt =====
-- `setKey` from the lookup to the notification (db.c).
use red_opt.Base.{ℕ, ◌+◌, ◌<◌, ◌≡◌, ◌∙◌, ap, refl, inl, inr, Bool, true, false}
use red_opt.Base.{none, some, ◌>>=◌, Bool-cases, ltb, arith, if◌then◌else◌}
use red_opt.Server.{Server}
use red_opt.Double.{Double}
use red_opt.Object.{Robj, static_refcount, init_object_lru_or_lfu, incr_ref_count}
use red_opt.Pool.{Sds}
use red_opt.Dict.{DictApi, sds_eq}
use red_opt.Db.{
  Context, KeySpace, SetFlags, lookup_write, lookup_key_write, db_set_value, db_add_internal,
  write_key, overwritten, added,
}
use red_opt.Db.{remove_expire, finish_set, retain_value, set_key}
use red_opt.Db.Lookup.{lookup_key-values}
use red_opt.Db.Master.{sds_eq_refl, SameValue, init-SameValue, lookup_key_write-Looked}

module _ (keys : DictApi Robj) (times : DictApi ℕ) (d : Double) where
  -- The value is stored under the key, and nothing else changes.
  abbrev pub Stored : KeySpace keys times → Sds → Robj → KeySpace keys times → Type 0
  Stored db key val db' =
      (w : Robj) × (keys.find db'.dict key ≡ some w)
      × SameValue val w
      × ((j : Sds) → sds_eq key j ≡ false → keys.find db'.dict j ≡ keys.find db.dict j)
      × (db'.expires ≡ db.expires)

  pub write_found :
      (db : KeySpace keys times) (key : Sds) (val old : Robj)
      → keys.find db.dict key ≡ some old
      → (db' : KeySpace keys times) × (db_set_value keys times d db key val true ≡ some db')
        × Stored db key val db'
  unfolding db_set_value
  write_found db key val old e = (
    overwritten keys times d db key val old true,
    rw (e, db_set_value),
    (
      record val { lru = old.lru },
      keys.find-put db.dict key _ key ∙ rw (sds_eq_refl key),
      (refl, refl, refl, refl),
      λ j ne. keys.find-put db.dict key _ j ∙ rw ne,
      refl,
    ),
  )

  pub write_missing :
      (s : Server) (db : KeySpace keys times) (key : Sds) (val : Robj)
      → keys.find db.dict key ≡ none
      → (db' : KeySpace keys times) × (db_add_internal keys times d s db key val false ≡ some db')
        × Stored db key val db'
  unfolding db_add_internal
  write_missing s db key val e = (
    added keys times d s db key val,
    rw (e, db_add_internal),
    (
      init_object_lru_or_lfu s val,
      keys.find-put db.dict key _ key ∙ rw (sds_eq_refl key),
      init-SameValue s val,
      λ j ne. keys.find-put db.dict key _ j ∙ rw ne,
      refl,
    ),
  )

  -- What `setKey` leaves of a key space.
  abbrev pub Set : KeySpace keys times → Sds → Robj → Bool → KeySpace keys times → Type 0
  Set db key val keepttl db' =
      ((w : Robj) × (keys.find db'.dict key ≡ some w)
        × (w.kind ≡ val.kind)
        × (w.encoding ≡ val.encoding)
        × (w.ptr ≡ val.ptr)
        × (w.refcount ≡ val.refcount + 1))
      × (keepttl ≡ false → times.find db'.expires key ≡ none)
      × ((j : Sds)
          → sds_eq key j ≡ false
          → (keys.find db'.dict j ≡ keys.find db.dict j)
            × (times.find db'.expires j ≡ times.find db.expires j))

  finish_set-keys :
      (db : KeySpace keys times) (key : Sds) (flags : SetFlags)
      → ((finish_set keys times d db key flags).dict ≡ db.dict)
        × ((finish_set keys times d db key flags).expires
            ≡ (if flags.keepttl then db.expires else times.remove db.expires key))
  unfolding finish_set remove_expire
  finish_set-keys db key flags = elim (Bool-cases flags.keepttl) [
    | inl keep ↦ elim (Bool-cases flags.no_signal) [
      | inl quiet ↦ rw (keep, quiet, finish_set) (refl, refl)
      | inr told ↦ rw (keep, told, finish_set) (refl, refl)
    ]
    | inr reset ↦ elim (Bool-cases flags.no_signal) [
      | inl quiet ↦ rw (reset, quiet, finish_set) (refl, refl)
      | inr told ↦ rw (reset, told, finish_set) (refl, refl)
    ]
  ]

  removed_other :
      (m : times.Dict) (b : Bool) (key j : Sds)
      → sds_eq key j ≡ false
      → times.find (if b then m else times.remove m key) j ≡ times.find m j
  removed_other m true key j ne = refl
  removed_other m false key j ne = times.find-remove m key j ∙ rw ne

  finished :
      (db mid : KeySpace keys times) (key : Sds) (val : Robj) (flags : SetFlags)
      → val.refcount < static_refcount
      → Stored mid key val db
      → (db' : KeySpace keys times) × ((retain_value keys times d db key >>= λ kept.
            some (finish_set keys times d kept key flags))
          ≡ some db')
        × Set mid key val flags.keepttl db'
  unfolding retain_value incr_ref_count
  finished db mid key val flags low (w, there, (kind, encoding, ptr, count), others, times_same) =
      let below : ltb w.refcount static_refcount ≡ true = ground arith in
      let w' = record w { refcount = w.refcount + 1 } in
      let kept = record db { dict = keys.put db.dict key w' } in
      let (same, expiries) = finish_set-keys kept key flags in
      let db' = finish_set keys times d kept key flags in
      (
        db',
        rw (there, below) refl,
        (
          (
            w',
            ap (λ m. keys.find m key) same
                ∙ keys.find-put db.dict key w' key
                ∙ rw (sds_eq_refl key),
            kind,
            encoding,
            ptr,
            omega arith,
          ),
          λ off.
              ap (λ m. times.find m key) expiries
              ∙ rw off (times.find-remove db.expires key key ∙ rw (sds_eq_refl key)),
          λ j ne. (
            ap (λ m. keys.find m j) same ∙ keys.find-put db.dict key w' j ∙ (rw ne) ∙ others j ne,
            ap (λ m. times.find m j) expiries
                ∙ removed_other db.expires flags.keepttl key j ne
                ∙ ap (λ m. times.find m j) times_same,
          ),
        ),
      )

  -- `setKey` without the flags that say whether the key exists, on a master that has not paused
  -- expiry, for a value whose references can be counted: it returns, whether the key was there,
  -- had expired or is new, and the key has the value, with one reference more. The time of the key
  -- is gone unless it is to be kept, and every other key has its value and its time.
  pub set_key-Set :
      (s : Server) (c : Context) (db : KeySpace keys times) (key : Sds) (val : Robj)
      (flags : SetFlags)
      → s.masterhost ≡ false
      → c.paused_expire ≡ false
      → flags.already_exist ≡ false
      → flags.doesnt_exist ≡ false
      → flags.add_or_update ≡ false
      → val.refcount < static_refcount
      → (db' : KeySpace keys times) × (set_key keys times d s c db key val flags ≡ some db')
        × Set db key val flags.keepttl db'
  unfolding set_key write_key lookup_key_write
  set_key-Set s c db key val flags m p f1 f2 f3 low =
      let others = lookup_key-values keys times d s c db key lookup_write in
      let looked = lookup_key_write keys times d s c db key in
      elim (lookup_key_write-Looked keys times d s c db key m p) [
        | inl (nothing, absent, expiries) ↦
            let (mid, run, stored) = write_missing s looked.1 key val absent in
            let (db', go, (value, time, rest)) = finished mid looked.1 key val flags low stored in
            (
              db',
              simp (f1, f3, f2, nothing, run) go,
              (value, time, λ j ne. ((rest j ne).0 ∙ others j ne, (rest j ne).1 ∙ expiries j ne)),
            )
        | inr (v, o, found, there, same, now, expires) ↦
            let (mid, run, stored) = write_found looked.1 key val v now in
            let (db', go, (value, time, rest)) = finished mid looked.1 key val flags low stored in
            (
              db',
              simp (f1, f3, f2, found, run) go,
              (
                value,
                time,
                λ j ne.
                    ((rest j ne).0 ∙ others j ne, (rest j ne).1 ∙ ap (λ t. times.find t j) expires),
              ),
            )
      ]
