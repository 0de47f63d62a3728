-- ===== src/Db.antt =====
-- The key space of db.c: lookup, add, overwrite, set, delete, and the expiry of keys.
pub mod Lookup
pub mod Write
pub mod Flush
pub mod Calls
pub mod Master
pub mod Set
pub mod Timed
pub mod Commands
use red_opt.Base.{ℕ, ◌+◌, ◌<◌, List, [], ◌∷◌, Bool, true, false, not, ◌&&◌, ◌||◌}
use red_opt.Base.{Option, none, some, ◌>>=◌, ltb, ◌==◌, if◌then◌else◌}
use red_opt.Server.{Server, flag_lfu, flag_lru_histogram}
use red_opt.Clock.{lru_clock}
use red_opt.Double.{Double}
use red_opt.Object.{Robj, init_object_lru_or_lfu, incr_ref_count, update_lru_histogram}
use red_opt.Lfu.{update_lfu}
use red_opt.Pool.{Sds}
use red_opt.Dict.{DictApi, sds_eq}

-- The calls that tell modules, replicas, blocked clients and watchers of a change, in order.
pub data Event : Type 0 where
  notify_key_miss : Sds → Event
  notify_new : Sds → Event
  notify_expired : Sds → Event
  notify_evicted : Sds → Event
  notify_del : Sds → Event
  notify_rename_from : Sds → Event
  notify_rename_to : Sds → Event
  notify_move_from : Sds → Event
  notify_move_to : Sds → Event
  module_key_unlink : Sds → Event
  signal_deleted_key_as_ready : Sds → Event
  signal_key_as_ready : Sds → Event
  signal_modified_key : Sds → Event
  propagate_deletion : Sds → Bool → Event

-- What the code asks of the client and of the server at the time of the command. `no_touch` is
-- CLIENT_NO_TOUCH of a client whose command is not TOUCH.
pub record Context : Type 0 where
  pub now : ℕ
  pub client_master : Bool
  pub no_touch : Bool
  pub has_child : Bool
  pub paused_expire : Bool
  pub lazy_expire : Bool
  pub rand : ℕ
  pub rand_max : ℕ

-- The flags of `lookupKey`, LOOKUP_NOTOUCH to LOOKUP_NOEXPIRE.
pub record LookupFlags : Type 0 where
  pub notouch : Bool
  pub nonotify : Bool
  pub nostats : Bool
  pub write : Bool
  pub noexpire : Bool

abbrev pub lookup_write : LookupFlags
lookup_write = record {
  notouch = false;
  nonotify = false;
  nostats = false;
  write = true;
  noexpire = false;
}

-- The flags of `setKey`.
pub record SetFlags : Type 0 where
  pub keepttl : Bool
  pub no_signal : Bool
  pub already_exist : Bool
  pub doesnt_exist : Bool
  pub add_or_update : Bool

module _ (keys : DictApi Robj) (times : DictApi ℕ) where
  -- `redisDb` with the statistics of the server that the functions keep.
  pub record KeySpace : Type 0 where
    pub dict : keys.Dict
    pub expires : times.Dict
    pub stat_keyspace_hits : ℕ
    pub stat_keyspace_misses : ℕ
    pub stat_expiredkeys : ℕ
    pub events : List Event

  abbrev pub emit : Event → KeySpace → KeySpace
  emit e db = record db { events = e ∷ db.events }

  -- `none` is -1.
  unfoldable pub get_expire : KeySpace → Sds → Option ℕ
  get_expire db key = if times.size db.expires == 0 then none else times.find db.expires key

  unfoldable pub key_is_expired : Server → Context → KeySpace → Sds → Bool
  key_is_expired s c db key =
      if s.loading
      then false
      else (elim (get_expire db key) [ none ↦ false | some when ↦ ltb when c.now ])

  unfoldable pub remove_expire : KeySpace → Sds → KeySpace
  remove_expire db key = record db { expires = times.remove db.expires key }

  -- `none` is the failed assertion.
  unfoldable pub set_expire : KeySpace → Sds → ℕ → Option KeySpace
  set_expire db key when = elim (keys.find db.dict key) [
    | none ↦ none
    | some o ↦ some (record db { expires = times.put db.expires key when })
  ]

  unfoldable pub db_generic_delete : KeySpace → Sds → Bool × KeySpace
  db_generic_delete db key = elim (keys.find db.dict key) [
    | none ↦ (false, db)
    | some o ↦ (
      true,
      record (emit (signal_deleted_key_as_ready key) (emit (module_key_unlink key) db)) {
        dict = keys.remove db.dict key;
        expires = if times.size db.expires == 0 then db.expires else times.remove db.expires key;
      },
    )
  ]

  unfoldable pub delete_expired_key_and_propagate : Context → KeySpace → Sds → KeySpace
  delete_expired_key_and_propagate c db key =
      let gone = (db_generic_delete db key).1 in
      let told =
        emit (propagate_deletion key c.lazy_expire)
          (emit (signal_modified_key key) (emit (notify_expired key) gone)) in
      record told { stat_expiredkeys = told.stat_expiredkeys + 1 }

  -- The last part of `expireIfNeeded`: the key is expired, and no replica stands in the way.
  unfoldable pub expire_now : Context → KeySpace → Sds → Bool → Bool × KeySpace
  expire_now c db key avoid =
      if avoid
      then (true, db)
      else if c.paused_expire
      then (true, db)
      else (true, delete_expired_key_and_propagate c db key)

  -- `force` and `avoid` are the flags EXPIRE_FORCE_DELETE_EXPIRED and EXPIRE_AVOID_DELETE_EXPIRED.
  unfoldable pub expire_if_needed :
      Server → Context → KeySpace → Sds → Bool → Bool → Bool × KeySpace
  expire_if_needed s c db key force avoid =
      if s.lazy_expire_disabled
      then (false, db)
      else if not (key_is_expired s c db key)
      then (false, db)
      else if s.masterhost && c.client_master
      then (false, db)
      else if s.masterhost && not force
      then (true, db)
      else expire_now c db key avoid

  module _ (d : Double) where
    -- The update of the access time in `lookupKey`.
    unfoldable pub touch_object : Server → Context → Bool → Robj → Robj
    touch_object s c notouch val =
        if c.has_child || (notouch || c.no_touch)
        then val
        else if flag_lfu s.maxmemory_policy
        then update_lfu d c.rand c.rand_max s val
        else if flag_lru_histogram s.maxmemory_policy
        then update_lru_histogram s val
        else record val { lru = lru_clock s }

    abbrev pub found_key :
        Server → Context → LookupFlags → Sds → Robj → KeySpace → Option Robj × KeySpace
    found_key s c flags key val db =
        let val' = touch_object s c flags.notouch val in
        (
          some val',
          record db {
            dict = keys.put db.dict key val';
            stat_keyspace_hits =
                if flags.nostats || flags.write
                then db.stat_keyspace_hits
                else db.stat_keyspace_hits + 1;
          },
        )

    abbrev pub missed_key : LookupFlags → Sds → KeySpace → Option Robj × KeySpace
    missed_key flags key db =
        let told = if flags.nonotify || flags.write then db else emit (notify_key_miss key) db in
        (
          none,
          record told {
            stat_keyspace_misses =
                if flags.nostats || flags.write
                then told.stat_keyspace_misses
                else told.stat_keyspace_misses + 1;
          },
        )

    -- The value is the object in the dictionary, as the update of the access time leaves it.
    unfoldable pub lookup_key :
        Server → Context → KeySpace → Sds → LookupFlags → Option Robj × KeySpace
    lookup_key s c db key flags = elim (keys.find db.dict key) [
      | none ↦ missed_key flags key db
      | some val ↦
          let is_ro_replica = s.masterhost && s.repl_slave_ro in
          let (expired, db') =
            expire_if_needed s c db key (flags.write && not is_ro_replica) flags.noexpire in
          if expired then missed_key flags key db' else found_key s c flags key val db'
    ]

    unfoldable pub lookup_key_write : Server → Context → KeySpace → Sds → Option Robj × KeySpace
    lookup_key_write s c db key = lookup_key s c db key lookup_write

    -- The key space after an overwrite, and after an addition.
    abbrev pub overwritten : KeySpace → Sds → Robj → Robj → Bool → KeySpace
    overwritten db key val old overwrite =
        let told =
          if overwrite
          then emit (signal_deleted_key_as_ready key) (emit (module_key_unlink key) db)
          else db in
        record told { dict = keys.put told.dict key (record val { lru = old.lru }) }

    abbrev pub added : Server → KeySpace → Sds → Robj → KeySpace
    added s db key val = emit (notify_new key) (
        emit (signal_key_as_ready key)
          (record db { dict = keys.put db.dict key (init_object_lru_or_lfu s val) }))

    -- `dbSetValue`; `none` is the failed assertion.
    unfoldable pub db_set_value : KeySpace → Sds → Robj → Bool → Option KeySpace
    db_set_value db key val overwrite = elim (keys.find db.dict key) [
      | none ↦ none
      | some old ↦ some (overwritten db key val old overwrite)
    ]

    -- `dbAddInternal`; `none` is the failed assertion.
    unfoldable pub db_add_internal : Server → KeySpace → Sds → Robj → Bool → Option KeySpace
    db_add_internal s db key val update_if_existing = elim (keys.find db.dict key) [
      | some old ↦ if update_if_existing then db_set_value db key val true else none
      | none ↦ some (added s db key val)
    ]

    unfoldable pub write_key : Server → KeySpace → Sds → Robj → Bool → Option KeySpace
    write_key s db key val keyfound =
        if keyfound then db_set_value db key val true else db_add_internal s db key val false

    -- The end of `setKey`.
    unfoldable pub finish_set : KeySpace → Sds → SetFlags → KeySpace
    finish_set db key flags =
        let timeless = if flags.keepttl then db else remove_expire db key in
        if flags.no_signal then timeless else emit (signal_modified_key key) timeless

    -- `incrRefCount(val)`, of the object that is now in the dictionary; `none` is its panic.
    unfoldable pub retain_value : KeySpace → Sds → Option KeySpace
    retain_value db key = keys.find db.dict key >>= λ o.
        incr_ref_count o >>= λ o'. some (record db { dict = keys.put db.dict key o' })

    unfoldable pub set_key : Server → Context → KeySpace → Sds → Robj → SetFlags → Option KeySpace
    set_key s c db key val flags =
        (if flags.already_exist
          then write_key s db key val true
          else if flags.add_or_update
          then db_add_internal s db key val true
          else if flags.doesnt_exist
          then write_key s db key val false
          else (let (o, db') = lookup_key_write s c db key in
              elim o [
                | none ↦ write_key s db' key val false
                | some v ↦ write_key s db' key val true
              ]))
        >>= λ db''. retain_value db'' key >>= λ kept. some (finish_set kept key flags)
