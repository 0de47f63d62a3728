-- ===== src/Db/Commands.antt =====
-- The commands of db.c that work on keys of any type: DEL, UNLINK, EXISTS, RENAME and MOVE, and the
-- options of FLUSHDB and FLUSHALL. A command is a function of its arguments, less the name, which
-- gives the reply, the key space, or spaces, and how often it has counted up `server.dirty`.
pub mod Delete
pub mod Rename
pub mod Steps
pub mod Move
use red_opt.Base.{get_elem?, set, ℤ, pos, negsuc, ltb, length}
use red_opt.Object.Strings.{Numbers}
use red_opt.Object.Strings.Parse.{Refusal, ok, err, panic, get_int_from_object_or_reply}
use red_opt.Db.{retain_value, notify_move_from, notify_move_to}
use red_opt.Base.{ℕ, zero, suc, ◌+◌, ◌-◌, ◌≤◌, ◌<◌, ◌≡◌, List, [], ◌∷◌, map, set}
use red_opt.Base.{
  Bool, true, false, not, ◌&&◌, ◌||◌, Option, none, some, ◌>>=◌, get_elem?, length, ltb, leb, ◌==◌,
  if◌then◌else◌,
}
use red_opt.Server.{Server}
use red_opt.Double.{Double}
use red_opt.Object.{Robj, Garbage, incr_ref_count, decr_ref_count, Released, freed, kept}
use red_opt.Pool.{Sds}
use red_opt.Dict.{DictApi, sds_eq}
use red_opt.Db.{
  Context, LookupFlags, KeySpace, emit, get_expire, set_expire, db_generic_delete, expire_if_needed,
}
use red_opt.Db.{
  lookup_key, lookup_key_write, db_add_internal, signal_modified_key, notify_del,
  notify_rename_from, notify_rename_to,
}

-- What the client is sent.
pub data Reply : Type 0 where
  ok_reply : Reply
  long_reply : ℕ → Reply
  no_such_key : Reply
  refused : Refusal → Reply
  not_in_cluster_mode : Reply
  index_out_of_range : Reply
  same_object : Reply

-- `strcasecmp` stops at the end of a string, a byte 0.
abbrev pub c_string : Sds → Sds
c_string [] = []
c_string (b ∷ bs) = let rest = c_string bs in if b == 0 then [] else b ∷ rest

abbrev pub to_lower : ℕ → ℕ
to_lower b = if leb 65 b && leb b 90 then b + 32 else b

unfoldable pub same_word : Sds → Sds → Bool
same_word a b = sds_eq (map to_lower (c_string a)) (map to_lower (c_string b))

abbrev pub word_sync : Sds
word_sync = 115 ∷ 121 ∷ 110 ∷ 99 ∷ []

abbrev pub word_async : Sds
word_async = 97 ∷ word_sync

-- Whether the flags have EMPTYDB_ASYNC; `none` is C_ERR with the syntax error.
unfoldable pub get_flush_command_flags : Bool → List Sds → Option Bool
get_flush_command_flags lazyfree_lazy_user_flush [] = some lazyfree_lazy_user_flush
get_flush_command_flags lazyfree_lazy_user_flush (word ∷ []) =
    if same_word word word_sync
    then some false
    else if same_word word word_async
    then some true
    else none
get_flush_command_flags lazyfree_lazy_user_flush (word ∷ (other ∷ more)) = none

-- `selectDb`: the number of the database, or C_ERR.
unfoldable pub select_db : ℕ → ℤ → Option ℕ
select_db dbnum (pos id) = if ltb id dbnum then some id else none
select_db dbnum (negsuc id) = none

abbrev pub is_some : {A : Type 0} → Option A → Bool
is_some none = false
is_some (some a) = true

abbrev pub lookup_notouch : LookupFlags
lookup_notouch = record {
  notouch = true;
  nonotify = false;
  nostats = false;
  write = false;
  noexpire = false;
}

module _ (keys : DictApi Robj) (times : DictApi ℕ) where
  pub record Outcome : Type 0 where
    pub reply : Reply
    pub db : KeySpace keys times
    pub dirty : ℕ

  -- The turn of the loop of `delGenericCommand` for one key.
  unfoldable pub del_key : Server → Context → KeySpace keys times → Sds → Bool × KeySpace keys times
  del_key s c db key =
      let checked = (expire_if_needed keys times s c db key false false).1 in
      let (deleted, db') = db_generic_delete keys times checked key in
      if deleted
      then (true, emit keys times (notify_del key) (emit keys times (signal_modified_key key) db'))
      else (false, db')

  unfoldable pub del_keys :
      Server → Context → KeySpace keys times → List Sds → ℕ × KeySpace keys times
  del_keys s c db [] = (0, db)
  del_keys s c db (key ∷ args) =
      let (deleted, db') = del_key s c db key in
      let (numdel, db'') = del_keys s c db' args in (if deleted then suc numdel else numdel, db'')

  -- Freeing the values in another thread makes no difference to the key space.
  pub del_generic_command : Server → Context → KeySpace keys times → List Sds → Outcome
  del_generic_command s c db args =
      let (numdel, db') = del_keys s c db args in
      record { reply = long_reply numdel; db = db'; dirty = numdel }

  module _ (d : Double) where
    unfoldable pub exists_keys :
        Server → Context → KeySpace keys times → List Sds → ℕ × KeySpace keys times
    exists_keys s c db [] = (0, db)
    exists_keys s c db (key ∷ args) =
        let (o, db') = lookup_key keys times d s c db key lookup_notouch in
        let (count, db'') = exists_keys s c db' args in
        (if is_some o then suc count else count, db'')

    pub exists_command : Server → Context → KeySpace keys times → List Sds → Outcome
    exists_command s c db args =
        let (count, db') = exists_keys s c db args in
        record { reply = long_reply count; db = db'; dirty = 0 }

    -- `if (expire != -1) setExpire(c,db,key,expire)`
    abbrev pub with_expire : Option ℕ → KeySpace keys times → Sds → Option (KeySpace keys times)
    with_expire none db key = some db
    with_expire (some when) db key = set_expire keys times db key when

    -- `decrRefCount` of the object that is in the dictionary, where another reference is left.
    unfoldable pub release_value : KeySpace keys times → Sds → Option (KeySpace keys times)
    release_value db key = keys.find db.dict key >>= λ o. decr_ref_count o >>= λ released.
        elim released [
          | freed ↦ none
          | kept o' ↦ some (record db { dict = keys.put db.dict key o' })
        ]

    -- The end of `renameGenericCommand`, where the new name is not there (any more). The old name
    -- and the new one have the same object, of which the deletion gives up one reference.
    unfoldable pub rename_key :
        Server → KeySpace keys times → Sds → Sds → Robj → Option ℕ → Option (KeySpace keys times)
    rename_key s db from to retained expire =
        db_add_internal keys times d s db to retained false >>= λ added.
        with_expire expire added to >>= λ timed.
        release_value (db_generic_delete keys times timed from).1 to >>= λ renamed. some (
          emit keys times (notify_rename_to to) (
            emit keys times (notify_rename_from from) (
              emit keys times (signal_modified_key to)
                (emit keys times (signal_modified_key from) renamed))))

    -- `none` is a failed assertion or a panic.
    unfoldable pub rename_generic_command :
        Server → Context → KeySpace keys times → Sds → Sds → Bool → Option Outcome
    rename_generic_command s c db from to nx =
        let (found, looked) = lookup_key_write keys times d s c db from in
        let (existing, looked') = lookup_key_write keys times d s c looked to in
        let clear =
          if is_some existing then (db_generic_delete keys times looked' to).1 else looked' in
        elim found [
          | none ↦ some (record { reply = no_such_key; db = looked; dirty = 0 })
          | some o ↦
              if sds_eq from to
              then some
                  (record { reply = if nx then long_reply 0 else ok_reply; db = looked; dirty = 0 })
              else (incr_ref_count o >>= λ retained.
                  if is_some existing && nx
                  then some (record { reply = long_reply 0; db = looked'; dirty = 0 })
                  else (rename_key s clear from to retained (get_expire keys times looked from)
                      >>= λ db'. some (record {
                        reply = if nx then long_reply 1 else ok_reply;
                        db = db';
                        dirty = 1;
                      })))
        ]

    -- The end of `moveCommand`: the two databases, where the key is in the first and not in the
    -- second. They have the same object, of which the deletion gives up one reference.
    unfoldable pub move_key :
        Server
        → KeySpace keys times
        → KeySpace keys times
        → Sds
        → Robj
        → Option (KeySpace keys times × KeySpace keys times)
    move_key s src dst key o = db_add_internal keys times d s dst key o false >>= λ added.
        with_expire (get_expire keys times src key) added key >>= λ timed.
        retain_value keys times d timed key >>= λ retained. release_value retained key >>= λ moved.
        some (
          emit keys times (notify_move_from key)
              (emit keys times (signal_modified_key key) (db_generic_delete keys times src key).1),
          emit keys times (notify_move_to key) (emit keys times (signal_modified_key key) moved),
        )

    -- The reply, the databases, and how often `server.dirty` has been counted up.
    unfoldable pub move_between :
        Server
        → Context
        → List (KeySpace keys times)
        → ℕ
        → ℕ
        → Sds
        → Option (Reply × List (KeySpace keys times) × ℕ)
    move_between s c dbs srcid dbid key = get_elem? dbs srcid >>= λ src.
        get_elem? dbs dbid >>= λ dst.
        let (found, src') = lookup_key_write keys times d s c src key in
        let (existing, dst') = lookup_key_write keys times d s c dst key in
        elim found [
          | none ↦ some (long_reply 0, set dbs srcid src', 0)
          | some o ↦
              if is_some existing
              then some (long_reply 0, set (set dbs srcid src') dbid dst', 0)
              else (move_key s src' dst' key o >>= λ moved.
                  some (long_reply 1, set (set dbs srcid moved.0) dbid moved.1, 1))
        ]

    unfoldable pub move_command :
        Numbers
        → Bool
        → Server
        → Context
        → List (KeySpace keys times)
        → ℕ
        → Sds
        → Robj
        → Option (Reply × List (KeySpace keys times) × ℕ)
    move_command num cluster_enabled s c dbs srcid key target =
        if cluster_enabled
        then some (not_in_cluster_mode, dbs, 0)
        else (elim (get_int_from_object_or_reply num (some target) none) [
          | panic ↦ none
          | err e ↦ some (refused e, dbs, 0)
          | ok id ↦ elim (select_db (length dbs) id) [
            | none ↦ some (index_out_of_range, dbs, 0)
            | some dbid ↦
                if srcid == dbid
                then some (same_object, dbs, 0)
                else move_between s c dbs srcid dbid key
          ]
        ])
