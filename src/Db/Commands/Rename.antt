-- ===== src/Db/Commands/Rename.antt =====
-- RENAME of a key that is there to another name (db.c).
use red_opt.Base.{ℕ, ◌+◌, ◌-◌, ◌≤◌, ◌<◌, ◌≡◌, ◌∙◌, sym, ap, refl, inl, inr}
use red_opt.Base.{
  Bool, true, false, ◌&&◌, Option, none, some, >>=-some, ltb, ◌==◌, Bool-cases, arith,
  if◌then◌else◌,
}
use red_opt.Server.{Server}
use red_opt.Double.{Double}
use red_opt.Object.{Robj, static_refcount, shared_refcount, incr_ref_count, decr_ref_count}
use red_opt.Pool.{Sds}
use red_opt.Dict.{DictApi, sds_eq, sds_eq_iff}
use red_opt.Db.{
  Context, KeySpace, lookup_write, lookup_key_write, get_expire, set_expire, db_generic_delete,
}
use red_opt.Db.{emit, signal_modified_key, notify_rename_from, notify_rename_to}
use red_opt.Db.Lookup.{get_expire-find, delete_present, lookup_key-values}
use red_opt.Db.Master.{sds_eq_refl, SameValue, lookup_key_write-Looked}
use red_opt.Db.Set.{write_missing}
use red_opt.Db.Timed.{IsTimed, lookup-IsTimed}
use red_opt.Db.Commands.{
  ok_reply, Outcome, is_some, with_expire, release_value, rename_key, rename_generic_command,
}
use red_opt.Db.Commands.Delete.{Without, delete-Without}

and_false : (b : Bool) → (b && false) ≡ false
and_false true = refl
and_false false = refl

sds_eq_sym : (a b : Sds) → sds_eq a b ≡ false → sds_eq b a ≡ false
sds_eq_sym a b h = elim (Bool-cases (sds_eq b a)) [
  | inr other ↦ other
  | inl same ↦
      let e : b ≡ a = (sds_eq_iff b a).0 same in
      let here : sds_eq a b ≡ true = (sds_eq_iff a b).1 (sym e) in absurd cc
]

module _ (keys : DictApi Robj) (times : DictApi ℕ) (d : Double) where
  -- The time is that of the key, and nothing else changes.
  pub with_expire-find :
      (db : KeySpace keys times) (key : Sds) (expire : Option ℕ) {w : Robj}
      → keys.find db.dict key ≡ some w
      → times.find db.expires key ≡ none
      → (db' : KeySpace keys times) × (with_expire keys times d expire db key ≡ some db')
        × (db'.dict ≡ db.dict)
        × (times.find db'.expires key ≡ expire)
        × ((j : Sds) → sds_eq key j ≡ false → times.find db'.expires j ≡ times.find db.expires j)
  unfolding set_expire
  with_expire-find db key none e t = (db, refl, refl, t, λ j ne. refl)
  with_expire-find db key (some when) e t = (
    record db { expires = times.put db.expires key when },
    rw (e, set_expire),
    refl,
    times.find-put db.expires key when key ∙ rw (sds_eq_refl key),
    λ j ne. times.find-put db.expires key when j ∙ rw ne,
  )

  pub release_value-find :
      (db : KeySpace keys times) (key : Sds) {w : Robj}
      → keys.find db.dict key ≡ some w
      → 1 < w.refcount
      → w.refcount ≤ static_refcount
      → (db' : KeySpace keys times) × (release_value keys times d db key ≡ some db')
        × (keys.find db'.dict key ≡ some (record w { refcount = w.refcount - 1 }))
        × ((j : Sds) → sds_eq key j ≡ false → keys.find db'.dict j ≡ keys.find db.dict j)
        × (db'.expires ≡ db.expires)
  unfolding release_value decr_ref_count
  release_value-find db key {w} e low high =
      let not_one : (w.refcount == 1) ≡ false = ground arith in
      let not_zero : (w.refcount == 0) ≡ false = ground arith in
      let own : (w.refcount == shared_refcount) ≡ false = ground arith in
      let w' = record w { refcount = w.refcount - 1 } in
      (
        record db { dict = keys.put db.dict key w' },
        simp (e, not_one, not_zero, own),
        keys.find-put db.dict key w' key ∙ rw (sds_eq_refl key),
        λ j ne. keys.find-put db.dict key w' j ∙ rw ne,
        refl,
      )

  -- What a rename leaves of a key space, where `v` is the value and `time` the time.
  abbrev pub Renamed :
      KeySpace keys times → Sds → Sds → Robj → Option ℕ → KeySpace keys times → Type 0
  Renamed db from to v time db' =
      (keys.find db'.dict from ≡ none)
      × (times.find db'.expires from ≡ none)
      × ((w : Robj) × (keys.find db'.dict to ≡ some w) × SameValue v w)
      × (times.find db'.expires to ≡ time)
      × ((j : Sds)
          → sds_eq from j ≡ false
          → sds_eq to j ≡ false
          → (keys.find db'.dict j ≡ keys.find db.dict j)
            × (times.find db'.expires j ≡ times.find db.expires j))

  module _ (s : Server) (db : KeySpace keys times) (from to : Sds) (v : Robj)
      (apart : sds_eq from to ≡ false) (there : keys.find db.dict from ≡ some v)
      (absent : keys.find db.dict to ≡ none) (timeless : times.find db.expires to ≡ none) where
    apart' : sds_eq to from ≡ false
    apart' = sds_eq_sym from to apart

    -- The end of a rename, with one reference more than the value has.
    pub rename_key-Renamed :
        (expire : Option ℕ)
        → 0 < v.refcount
        → v.refcount < static_refcount
        → (db' : KeySpace keys times) × (rename_key keys times d s db from to
              (record v { refcount = v.refcount + 1 })
              expire
            ≡ some db')
          × Renamed db from to v expire db'
    unfolding rename_key
    rename_key-Renamed expire pos low =
        let (added, run1, (w, now, (kind, encoding, ptr, count), others, times_same)) =
          write_missing keys times d s db to (record v { refcount = v.refcount + 1 }) absent in
        let (timed, run2, same_keys, time, other_times) =
          with_expire-find added to expire now (ap (λ t. times.find t to) times_same ∙ timeless) in
        let in_timed : keys.find timed.dict from ≡ some v =
          ap (λ t. keys.find t from) same_keys ∙ others from apart' ∙ there in
        let deleted = (db_generic_delete keys times timed from).1 in
        let gone = λ (j : Sds). delete_present keys times timed from j v in_timed in
        let (db', run3, final, rest, times_left) =
          release_value-find deleted to {w = w}
            ((gone to).0 ∙ (rw apart) ∙ ap (λ t. keys.find t to) same_keys ∙ now) (omega arith)
            (omega arith) in
        (
          emit keys times (notify_rename_to to) (
              emit keys times (notify_rename_from from) (
                emit keys times (signal_modified_key to)
                  (emit keys times (signal_modified_key from) db'))),
          >>=-some _ run1 (>>=-some _ run2 (>>=-some _ run3 refl)),
          (
            rest from apart' ∙ (gone from).0 ∙ rw (sds_eq_refl from),
            ap (λ t. times.find t from) times_left ∙ (gone from).1 ∙ rw (sds_eq_refl from),
            (record w { refcount = w.refcount - 1 }, final, (kind, encoding, ptr, omega arith)),
            ap (λ t. times.find t to) times_left ∙ (gone to).1 ∙ (rw apart) ∙ time,
            λ j ne ne'. (
              rest j ne' ∙ (gone j).0 ∙ (rw ne) ∙ ap (λ t. keys.find t j) same_keys ∙ others j ne',
              ap (λ t. times.find t j) times_left
                  ∙ (gone j).1
                  ∙ (rw ne)
                  ∙ other_times j ne'
                  ∙ ap (λ t. times.find t j) times_same,
            ),
          ),
        )

  -- What is left when the new name has been looked up and, where it was there, deleted.
  abbrev target_free : Server → Context → KeySpace keys times → Sds → KeySpace keys times
  target_free s c db to =
      let (existing, looked) = lookup_key_write keys times d s c db to in
      if is_some existing then (db_generic_delete keys times looked to).1 else looked

  target_free-Without :
      (s : Server) (c : Context) (db : KeySpace keys times) (to j : Sds)
      → s.masterhost ≡ false
      → c.paused_expire ≡ false
      → IsTimed keys times d db
      → Without keys times d s c (sds_eq to j) j db (target_free s c db to)
  unfolding lookup_key_write
  target_free-Without s c db to j m p v =
      let looked = lookup_key_write keys times d s c db to in
      let others = lookup_key-values keys times d s c db to lookup_write j in
      let timed : IsTimed keys times d looked.1 =
        lookup-IsTimed keys times d s c db to lookup_write v in
      elim (lookup_key_write-Looked keys times d s c db to m p) [
        | inl (nothing, absent, expiries) ↦ elim (Bool-cases (sds_eq to j)) [
          | inr other ↦ rw (nothing, other) (others other, expiries j other)
          | inl here ↦
              let eq : to ≡ j = (sds_eq_iff to j).0 here in
              let gone : keys.find looked.1.dict j ≡ none =
                ap (keys.find looked.1.dict) (sym eq) ∙ absent in
              rw (nothing, here) (gone, timed j gone)
        ]
        | inr (w, o, found, there, same, now, expires) ↦
            let (value, time) = delete-Without keys times d s c looked.1 to j timed in
            elim (Bool-cases (sds_eq to j)) [
              | inr other ↦
                  rw (found, other)
                    (
                      value ∙ (rw other) ∙ others other,
                      time ∙ (rw other) ∙ ap (λ t. times.find t j) expires,
                    )
              | inl here ↦ rw (found, here) (value ∙ rw here, time ∙ rw here)
            ]
      ]

  pub write-IsTimed :
      (s : Server) (c : Context) (db : KeySpace keys times) (key : Sds)
      → IsTimed keys times d db
      → IsTimed keys times d (lookup_key_write keys times d s c db key).1
  unfolding lookup_key_write
  write-IsTimed s c db key v = lookup-IsTimed keys times d s c db key lookup_write v

  pub write-other :
      (s : Server) (c : Context) (db : KeySpace keys times) (key j : Sds)
      → sds_eq key j ≡ false
      → keys.find (lookup_key_write keys times d s c db key).1.dict j ≡ keys.find db.dict j
  unfolding lookup_key_write
  write-other s c db key = lookup_key-values keys times d s c db key lookup_write

  renames :
      (s : Server) (c : Context) (db : KeySpace keys times) (from to : Sds) {v : Robj}
      {db' : KeySpace keys times}
      → (lookup_key_write keys times d s c db from).0 ≡ some v
      → sds_eq from to ≡ false
      → v.refcount < static_refcount
      → let looked = (lookup_key_write keys times d s c db from).1 in
        rename_key keys times d s
            (target_free s c looked to)
            from
            to
            (record v { refcount = v.refcount + 1 })
            (get_expire keys times looked from)
          ≡ some db'
        → rename_generic_command keys times d s c db from to false
          ≡ some (record { reply = ok_reply; db = db'; dirty = 1 })
  unfolding rename_generic_command incr_ref_count
  renames s c db from to {v} finds apart low run =
      let looked = (lookup_key_write keys times d s c db from).1 in
      let below : ltb v.refcount static_refcount ≡ true = ground arith in
      rw (
        finds,
        rename_generic_command,
        apart,
        below,
        and_false (is_some (lookup_key_write keys times d s c looked to).0),
        run,
      )

  -- RENAME, on a master that has not paused expiry, of a key that a lookup finds to another name,
  -- of an object whose references can be counted: it succeeds, whether or not the new name is
  -- there, and counts one change. The old name is gone; the new name has the object, with as many
  -- references as before, and the time that the old name had, or none; every other key has its
  -- value and its time.
  pub rename_generic_command-Renamed :
      (s : Server) (c : Context) (db : KeySpace keys times) (from to : Sds) {v : Robj}
      → s.masterhost ≡ false
      → c.paused_expire ≡ false
      → IsTimed keys times d db
      → sds_eq from to ≡ false
      → (lookup_key_write keys times d s c db from).0 ≡ some v
      → 0 < v.refcount
      → v.refcount < static_refcount
      → (out : Outcome keys times) × (rename_generic_command keys times d s c db from to false
          ≡ some out)
        × (out.reply ≡ ok_reply)
        × (out.dirty ≡ 1)
        × Renamed db from to v (times.find db.expires from) out.db
  rename_generic_command-Renamed s c db from to {v} m p timed apart finds pos low =
      let looked = (lookup_key_write keys times d s c db from).1 in
      let others = write-other s c db from in
      let timed' : IsTimed keys times d looked = write-IsTimed s c db from timed in
      elim (lookup_key_write-Looked keys times d s c db from m p) [
        | inl (nothing, absent, expiries) ↦ absurd cc
        | inr (w, o, found, there, same, now, expires) ↦
            let clear = target_free s c looked to in
            let after = λ (j : Sds). target_free-Without s c looked to j m p timed' in
            let expire = get_expire keys times looked from in
            let (db', run, (gone, untimed, value, time, rest)) =
              rename_key-Renamed s clear from to v apart
                ((after from).0 ∙ (rw (sds_eq_sym from to apart)) ∙ now ∙ sym found ∙ finds)
                ((after to).0 ∙ rw (sds_eq_refl to)) ((after to).1 ∙ rw (sds_eq_refl to)) expire pos
                low in
            (
              record { reply = ok_reply; db = db'; dirty = 1 },
              renames s c db from to finds apart low run,
              refl,
              refl,
              (
                gone,
                untimed,
                value,
                time ∙ get_expire-find keys times looked from ∙ ap (λ t. times.find t from) expires,
                λ j ne ne'. (
                  (rest j ne ne').0 ∙ (after j).0 ∙ (rw ne') ∙ others j ne,
                  (rest j ne ne').1 ∙ (after j).1 ∙ (rw ne') ∙ ap (λ t. times.find t j) expires,
                ),
              ),
            )
      ]
