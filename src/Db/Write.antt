-- ===== src/Db/Write.antt =====
-- What the writes of the key space store.
use red_opt.Base.{ℕ, ◌≡◌, ◌∙◌, refl, Bool, true, false, some, if◌then◌else◌}
use red_opt.Double.{Double}
use red_opt.Object.{Robj}
use red_opt.Pool.{Sds}
use red_opt.Dict.{DictApi, sds_eq, sds_eq_iff}
use red_opt.Histogram.{define_window_boundaries, estimate_object_eviction_score}
use red_opt.Histogram.Range.{Within}
use red_opt.Histogram.Score.{unaccessed_top}
use red_opt.Db.{KeySpace, overwritten, db_set_value}

module _ (keys : DictApi Robj) (times : DictApi ℕ) (d : Double) (db : KeySpace keys times)
    (key : Sds) (val : Robj) where
  -- `dbSetValue` on a key that is there, with a value without accesses such as a new object: it
  -- returns, and the key then has the value with the LRU field of the old one. Its eviction score,
  -- at whatever clock and by the windows of whatever statistics, is not below that of any object
  -- whose ages lie between their minimum and maximum, however often the old value had been read.
  -- Every other key has its value, and every key its time.
  pub db_set_value-top :
      (overwrite : Bool) (now lo hi : ℕ) (mean stddev : d.F) (o' : Robj) {old : Robj}
      → keys.find db.dict key ≡ some old
      → val.num_accesses ≡ 0
      → Within now lo hi o'
      → let bounds = define_window_boundaries d (lo, hi, mean, stddev) in
        (db' : KeySpace keys times) × (z s : d.F) × (db_set_value keys times d db key val overwrite
          ≡ some db')
        × (keys.find db'.dict key ≡ some (record val { lru = old.lru }))
        × (estimate_object_eviction_score d now bounds (record val { lru = old.lru }) ≡ some z)
        × (estimate_object_eviction_score d now bounds o' ≡ some s)
        × (d.lt z s ≡ false)
        × ((j : Sds) → sds_eq key j ≡ false → keys.find db'.dict j ≡ keys.find db.dict j)
        × (db'.expires ≡ db.expires)
  unfolding db_set_value
  db_set_value-top overwrite now lo hi mean stddev o' {old} e unread within =
      let w = record val { lru = old.lru } in
      let db' = overwritten keys times d db key val old overwrite in
      let (z, s, run, run', top) = unaccessed_top d lo hi mean stddev now w o' unread within in
      let put = stored overwrite in
      (
        db',
        z,
        s,
        rw (e, db_set_value) refl,
        put.0 key ∙ rw ((sds_eq_iff key key).1 refl),
        run,
        run',
        top,
        λ j ne. put.0 j ∙ rw ne,
        put.1,
      )
    where
      stored :
          (overwrite : Bool)
          → ((j : Sds)
              → keys.find (overwritten keys times d db key val old overwrite).dict j ≡ (
                  if sds_eq key j
                  then some (record val { lru = old.lru })
                  else keys.find db.dict j))
            × ((overwritten keys times d db key val old overwrite).expires ≡ db.expires)
      stored true = (λ j. keys.find-put db.dict key _ j, refl)
      stored false = (λ j. keys.find-put db.dict key _ j, refl)
