-- ===== src/Db/Commands/Move.antt =====
-- MOVE of a key that is there to a database that has none of that name (db.c).
use red_opt.Base.{ℕ, ◌+◌, ◌-◌, ◌<◌, ◌≡◌, ◌≢◌, ◌∙◌, sym, ap, refl, inl, inr, List, set, get_elem?}
use red_opt.Base.{true, false, Option, none, some, >>=-some, ltb, ◌==◌, arith}
use red_opt.Base.{pos, length}
use red_opt.Object.Strings.{Numbers}
use red_opt.Object.Strings.Parse.{ok, get_int_from_object_or_reply}
use red_opt.Server.{Server}
use red_opt.Double.{Double}
use red_opt.Object.{Robj, static_refcount, incr_ref_count}
use red_opt.Pool.{Sds}
use red_opt.Dict.{DictApi, sds_eq}
use red_opt.Db.{Context, KeySpace, lookup_key_write, get_expire, db_generic_delete, retain_value}
use red_opt.Db.{emit, signal_modified_key, notify_move_from, notify_move_to}
use red_opt.Db.Lookup.{delete_present}
use red_opt.Db.Master.{sds_eq_refl, SameValue, lookup_key_write-Looked}
use red_opt.Db.Set.{write_missing}
use red_opt.Db.Timed.{IsTimed}
use red_opt.Db.Commands.{long_reply, select_db, move_key, move_between, move_command}
use red_opt.Db.Lookup.{get_expire-find}
use red_opt.Db.Commands.Rename.{with_expire-find, release_value-find, write-IsTimed, write-other}

module _ (keys : DictApi Robj) (times : DictApi ℕ) (d : Double) where
  retain_value-find :
      (db : KeySpace keys times) (key : Sds) {w : Robj}
      → keys.find db.dict key ≡ some w
      → w.refcount < static_refcount
      → (db' : KeySpace keys times) × (retain_value keys times d db key ≡ some db')
        × (keys.find db'.dict key ≡ some (record w { refcount = w.refcount + 1 }))
        × ((j : Sds) → sds_eq key j ≡ false → keys.find db'.dict j ≡ keys.find db.dict j)
        × (db'.expires ≡ db.expires)
  unfolding retain_value incr_ref_count
  retain_value-find db key {w} e low =
      let below : ltb w.refcount static_refcount ≡ true = ground arith in
      let w' = record w { refcount = w.refcount + 1 } in
      (
        record db { dict = keys.put db.dict key w' },
        simp (e, below),
        keys.find-put db.dict key w' key ∙ rw (sds_eq_refl key),
        λ j ne. keys.find-put db.dict key w' j ∙ rw ne,
        refl,
      )

  -- All other keys of a database have their values and their times.
  abbrev pub Others : Sds → KeySpace keys times → KeySpace keys times → Type 0
  Others key db db' =
      (j : Sds)
      → sds_eq key j ≡ false
      → (keys.find db'.dict j ≡ keys.find db.dict j)
        × (times.find db'.expires j ≡ times.find db.expires j)

  -- The key has gone from the first database, and the second has its value and its time.
  abbrev pub Moved :
      Sds
      → Robj
      → Option ℕ
      → KeySpace keys times
      → KeySpace keys times
      → KeySpace keys times
      → KeySpace keys times
      → Type 0
  Moved key v time src dst src' dst' =
      (keys.find src'.dict key ≡ none)
      × (times.find src'.expires key ≡ none)
      × ((w : Robj) × (keys.find dst'.dict key ≡ some w) × SameValue v w)
      × (times.find dst'.expires key ≡ time)
      × Others key src src'
      × Others key dst dst'

  move_key-Moved :
      (s : Server) (src dst : KeySpace keys times) (key : Sds) (v : Robj)
      → keys.find src.dict key ≡ some v
      → keys.find dst.dict key ≡ none
      → times.find dst.expires key ≡ none
      → 0 < v.refcount
      → v.refcount < static_refcount
      → (src' dst' : KeySpace keys times) × (move_key keys times d s src dst key v
          ≡ some (src', dst'))
        × Moved key v (times.find src.expires key) src dst src' dst'
  unfolding move_key
  move_key-Moved s src dst key v there absent timeless some_ref low =
      let (added, run1, (w, now, (kind, encoding, ptr, count), others, times_same)) =
        write_missing keys times d s dst key v absent in
      let (timed, run2, same_keys, time, other_times) =
        with_expire-find keys times d added key (get_expire keys times src key) now
          (ap (λ t. times.find t key) times_same ∙ timeless) in
      let (retained, run3, counted, others3, times3) =
        retain_value-find timed key {w = w} (ap (λ t. keys.find t key) same_keys ∙ now)
          (omega arith) in
      let (moved, run4, final, others4, times4) =
        release_value-find keys times d retained key counted (omega arith) (omega arith) in
      let gone = λ (j : Sds). delete_present keys times src key j v there in
      let times_all : moved.expires ≡ timed.expires = times4 ∙ times3 in
      (
        emit keys times (notify_move_from key)
            (emit keys times (signal_modified_key key) (db_generic_delete keys times src key).1),
        emit keys times (notify_move_to key) (emit keys times (signal_modified_key key) moved),
        >>=-some _ run1 (>>=-some _ run2 (>>=-some _ run3 (>>=-some _ run4 refl))),
        (
          (gone key).0 ∙ rw (sds_eq_refl key),
          (gone key).1 ∙ rw (sds_eq_refl key),
          (record w { refcount = w.refcount + 1 - 1 }, final, (kind, encoding, ptr, omega arith)),
          ap (λ t. times.find t key) times_all ∙ time ∙ get_expire-find keys times src key,
          λ j ne. ((gone j).0 ∙ rw ne, (gone j).1 ∙ rw ne),
          λ j ne. (
            others4 j ne ∙ others3 j ne ∙ ap (λ t. keys.find t j) same_keys ∙ others j ne,
            ap (λ t. times.find t j) times_all
                ∙ other_times j ne
                ∙ ap (λ t. times.find t j) times_same,
          ),
        ),
      )

  moves :
      (s : Server) (c : Context) (dbs : List (KeySpace keys times)) (srcid dbid : ℕ) (key : Sds)
      {src dst src' dst' : KeySpace keys times} {v : Robj}
      → get_elem? dbs srcid ≡ some src
      → get_elem? dbs dbid ≡ some dst
      → (lookup_key_write keys times d s c src key).0 ≡ some v
      → (lookup_key_write keys times d s c dst key).0 ≡ none
      → move_key keys times d s
          (lookup_key_write keys times d s c src key).1
          (lookup_key_write keys times d s c dst key).1
          key
          v
        ≡ some (src', dst')
      → move_between keys times d s c dbs srcid dbid key
        ≡ some (long_reply 1, set (set dbs srcid src') dbid dst', 1)
  unfolding move_between
  moves s c dbs srcid dbid key e1 e2 finds misses run =
      rw (e1, e2, move_between, finds, misses, run) refl

  -- The databases, where the key has been found in one and not in the other.
  move_between-Moved :
      (s : Server) (c : Context) (dbs : List (KeySpace keys times)) (srcid dbid : ℕ) (key : Sds)
      {src dst : KeySpace keys times} {v : Robj}
      → s.masterhost ≡ false
      → c.paused_expire ≡ false
      → get_elem? dbs srcid ≡ some src
      → get_elem? dbs dbid ≡ some dst
      → IsTimed keys times d dst
      → (lookup_key_write keys times d s c src key).0 ≡ some v
      → (lookup_key_write keys times d s c dst key).0 ≡ none
      → 0 < v.refcount
      → v.refcount < static_refcount
      → (src' dst' : KeySpace keys times) × (move_between keys times d s c dbs srcid dbid key
          ≡ some (long_reply 1, set (set dbs srcid src') dbid dst', 1))
        × Moved key v (times.find src.expires key) src dst src' dst'
  move_between-Moved s c dbs srcid dbid key {src} {dst} {v} m p e1 e2 timed finds misses some_ref
        low =
      let from = lookup_key_write keys times d s c src key in
      let to = lookup_key_write keys times d s c dst key in
      elim (lookup_key_write-Looked keys times d s c src key m p) [
        | inl (nothing, gone, expiries) ↦ absurd cc
        | inr (w, o, found, there, same, now, expires) ↦
            elim (lookup_key_write-Looked keys times d s c dst key m p) [
              | inr (w', o', found', there', same', now', expires') ↦ absurd cc
              | inl (nothing', absent, expiries) ↦
                  let (src', dst', run, (gone, untimed, value, time, others, others')) =
                    move_key-Moved s from.1 to.1 key v (now ∙ sym found ∙ finds) absent
                      (write-IsTimed keys times d s c dst key timed key absent) some_ref low in
                  (
                    src',
                    dst',
                    moves s c dbs srcid dbid key e1 e2 finds misses run,
                    (
                      gone,
                      untimed,
                      value,
                      time ∙ ap (λ t. times.find t key) expires,
                      λ j ne. (
                        (others j ne).0 ∙ write-other keys times d s c src key j ne,
                        (others j ne).1 ∙ ap (λ t. times.find t j) expires,
                      ),
                      λ j ne. (
                        (others' j ne).0 ∙ write-other keys times d s c dst key j ne,
                        (others' j ne).1 ∙ expiries j ne,
                      ),
                    ),
                  )
            ]
      ]

  between :
      (num : Numbers) (s : Server) (c : Context) (dbs : List (KeySpace keys times)) (srcid dbid : ℕ)
      (key : Sds) (target : Robj)
      → get_int_from_object_or_reply num (some target) none ≡ ok (pos dbid)
      → dbid < length dbs
      → srcid ≢ dbid
      → move_command keys times d num false s c dbs srcid key target
        ≡ move_between keys times d s c dbs srcid dbid key
  unfolding move_command select_db
  between num s c dbs srcid dbid key target parsed within apart =
      let inside : ltb dbid (length dbs) ≡ true = ground arith in
      let other : (srcid == dbid) ≡ false = ground (arith, apart) in
      rw (parsed, move_command, inside, other) refl

  -- MOVE of a key that a lookup finds to the other database that its argument names, where a
  -- lookup does not find it, on a master, not in cluster mode, that has not paused expiry, for an
  -- object whose references can be counted, where the other database has times only for keys with
  -- values: it succeeds and counts one change. The key is gone from its database; the other one
  -- has the object, with as many references as before, and its time, or none; every other key of
  -- both has its value and its time, and no other database has changed.
  pub move_command-Moved :
      (num : Numbers) (s : Server) (c : Context) (dbs : List (KeySpace keys times)) (srcid dbid : ℕ)
      (key : Sds) (target : Robj) {src dst : KeySpace keys times} {v : Robj}
      → get_int_from_object_or_reply num (some target) none ≡ ok (pos dbid)
      → dbid < length dbs
      → srcid ≢ dbid
      → s.masterhost ≡ false
      → c.paused_expire ≡ false
      → get_elem? dbs srcid ≡ some src
      → get_elem? dbs dbid ≡ some dst
      → IsTimed keys times d dst
      → (lookup_key_write keys times d s c src key).0 ≡ some v
      → (lookup_key_write keys times d s c dst key).0 ≡ none
      → 0 < v.refcount
      → v.refcount < static_refcount
      → (src' dst' : KeySpace keys times) × (move_command keys times d num false s c dbs srcid key
            target
          ≡ some (long_reply 1, set (set dbs srcid src') dbid dst', 1))
        × Moved key v (times.find src.expires key) src dst src' dst'
  move_command-Moved num s c dbs srcid dbid key target parsed within apart m p e1 e2 timed finds
        misses some_ref low =
      let (src', dst', run, moved) =
        move_between-Moved s c dbs srcid dbid key m p e1 e2 timed finds misses some_ref low in
      (src', dst', between num s c dbs srcid dbid key target parsed within apart ∙ run, moved)
