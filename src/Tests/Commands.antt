-- ===== src/Tests/Commands.antt =====
-- The theorems on the commands, on the databases and on a whole eviction at concrete inputs.
use red_opt.Base.{pos, set}
use red_opt.Object.{number}
use red_opt.Object.Strings.{encoding_int}
use red_opt.Object.Strings.Parse.{
  ok, get_int_from_object_or_reply, get_range_long_from_object_or_reply,
  get_long_from_object_or_reply, get_long_long_from_object_or_reply,
}
use red_opt.Db.Commands.{move_command}
use red_opt.Db.Commands.Move.{Moved, move_command-Moved}
use red_opt.Tests.Numbers.{numbers}
use red_opt.Base.{
  ℕ, ◌≡◌, refl, List, [], ◌∷◌, true, false, none, some, if◌then◌else◌, arith, memmove,
}
use red_opt.Object.{Robj}
use red_opt.Dict.{sds_eq}
use red_opt.Pool.{
  alloc_entries, eviction_pool_alloc, find_slot, make_room, insert_candidate, write_buf,
}
use red_opt.Populate.{idle_of, eviction_pool_populate}
use red_opt.Memory.{get_maxmemory_state, free_memory_get_not_counted_memory, eviction_time_limit_us}
use red_opt.Db.{
  Context, expire_if_needed, key_is_expired, get_expire, touch_object, KeySpace, SetFlags, set_key,
  lookup_key, lookup_key_write, db_generic_delete, remove_expire,
}
use red_opt.Db.{
  propagate_deletion, notify_evicted, signal_modified_key, signal_deleted_key_as_ready,
  module_key_unlink,
}
use red_opt.Db.Set.{Set, set_key-Set}
use red_opt.Db.Timed.{IsTimed}
use red_opt.Db.Commands.{long_reply, ok_reply, Outcome, del_generic_command, rename_generic_command}
use red_opt.Db.Commands.Delete.{among, count_once, outlasts, del_generic_command-among}
use red_opt.Db.Commands.Rename.{Renamed, rename_generic_command-Renamed}
use red_opt.Db.Commands.Steps.{stays, goes, step_persist, Reaches-IsTimed}
use red_opt.Evict.{scan}
use red_opt.Evict.Cycle.{
  evict_fail, Eviction, perform_evictions, is_safe_to_perform_evictions, update_metrics, evict_loop,
  pick, pick_best,
}
use red_opt.Evict.Cycle.{
  populate_dbs, populate_db, refill, key_exists, evict_key, evict_from, after_batch, wait_lazyfree,
  conclude,
}
use red_opt.Evict.Cycle.Shrink.{Evicts}
use red_opt.Evict.Cycle.Effect.{perform_evictions-Evicts}
use red_opt.Tests.Doubles.{decimals}
use red_opt.Tests.Dicts.{assoc, assoc_find, assoc_remove}
use red_opt.Tests.Samples.{server, new_pool, unused, often_used}
use red_opt.Tests.Keys.{key_a, key_b, key_space, context}
use red_opt.Tests.Cycles.{ttl_server, outside, start}

-- The key with a time is evicted, and then there is nothing left to evict.
abbrev evicted_state : Eviction (assoc Robj) (assoc ℕ) decimals
evicted_state = record start {
  dbs =
      record key_space {
        dict = (key_b, often_used) ∷ [];
        expires = [];
        events =
            propagate_deletion key_a false
            ∷ notify_evicted key_a
            ∷ signal_modified_key key_a
            ∷ signal_deleted_key_as_ready key_a
            ∷ module_key_unlink key_a
            ∷ [];
      }
      ∷ [];
  pool = record { entries = new_pool.entries; bufs = write_buf (λ i. []) 0 key_a };
  tick = 2;
  stat_evictedkeys = 1;
  exceeded = true;
}

evicted_a :
    perform_evictions (assoc Robj) (assoc ℕ) decimals 3 outside ttl_server start
    ≡ some (evict_fail, evicted_state)
unfolding perform_evictions is_safe_to_perform_evictions get_maxmemory_state
    free_memory_get_not_counted_memory eviction_time_limit_us evict_loop pick pick_best populate_dbs
    populate_db refill eviction_pool_populate idle_of eviction_pool_alloc insert_candidate make_room
    find_slot memmove scan key_exists alloc_entries assoc_find assoc_remove sds_eq evict_key
    evict_from db_generic_delete after_batch wait_lazyfree conclude update_metrics
evicted_a = refl

perform_evictions-Evicts_example : Evicts (assoc Robj) (assoc ℕ) decimals start evicted_state
perform_evictions-Evicts_example =
    perform_evictions-Evicts (assoc Robj) (assoc ℕ) decimals outside ttl_server 3 start evicted_a

abbrev set_flags : SetFlags
set_flags = record {
  keepttl = false;
  no_signal = false;
  already_exist = false;
  doesnt_exist = false;
  add_or_update = false;
}

set_key-Set_example :
    (db' : KeySpace (assoc Robj) (assoc ℕ)) × (set_key
        (assoc Robj)
        (assoc ℕ)
        decimals
        server
        context
        key_space
        key_b
        unused
        set_flags
      ≡ some db')
    × Set (assoc Robj) (assoc ℕ) decimals key_space key_b unused false db'
set_key-Set_example =
    set_key-Set (assoc Robj) (assoc ℕ) decimals server context key_space key_b unused set_flags refl
      refl refl refl refl (omega arith)

key_space-IsTimed : IsTimed (assoc Robj) (assoc ℕ) decimals key_space
unfolding assoc_find
key_space-IsTimed k h = ground arith

del_generic_command-among_example :
    let out = del_generic_command (assoc Robj) (assoc ℕ) server context key_space (key_b ∷ []) in
    (assoc_find out.db.dict key_a
      ≡ (if among (key_b ∷ []) key_a then none else assoc_find key_space.dict key_a))
    × (assoc_find out.db.expires key_a
        ≡ (if among (key_b ∷ []) key_a then none else assoc_find key_space.expires key_a))
    × (out.reply ≡ long_reply out.dirty)
    × (out.dirty
        ≡ count_once
            (outlasts (assoc Robj) (assoc ℕ) decimals server context key_space)
            (key_b ∷ []))
    × IsTimed (assoc Robj) (assoc ℕ) decimals out.db
del_generic_command-among_example =
    del_generic_command-among (assoc Robj) (assoc ℕ) decimals server context key_space (key_b ∷ [])
      key_a key_space-IsTimed

abbrev key_c : List ℕ
key_c = 67 ∷ []

-- A client that does not touch what it looks up.
abbrev untouching : Context
untouching = record context { no_touch = true }

found_b :
    (lookup_key_write (assoc Robj) (assoc ℕ) decimals server untouching key_space key_b).0
    ≡ some often_used
unfolding lookup_key_write lookup_key expire_if_needed key_is_expired get_expire touch_object
    assoc_find sds_eq
found_b = refl

rename_generic_command-Renamed_example :
    (out : Outcome (assoc Robj) (assoc ℕ)) × (rename_generic_command
        (assoc Robj)
        (assoc ℕ)
        decimals
        server
        untouching
        key_space
        key_b
        key_c
        false
      ≡ some out)
    × (out.reply ≡ ok_reply)
    × (out.dirty ≡ 1)
    × Renamed
        (assoc Robj)
        (assoc ℕ)
        decimals
        key_space
        key_b
        key_c
        often_used
        (assoc_find key_space.expires key_b)
        out.db
unfolding sds_eq
rename_generic_command-Renamed_example =
    rename_generic_command-Renamed (assoc Robj) (assoc ℕ) decimals server untouching key_space key_b
      key_c refl refl key_space-IsTimed refl found_b (omega arith) (omega arith)

Reaches-IsTimed_example :
    IsTimed (assoc Robj) (assoc ℕ) decimals (remove_expire (assoc Robj) (assoc ℕ) key_space key_a)
Reaches-IsTimed_example =
    Reaches-IsTimed (assoc Robj) (assoc ℕ) decimals server
      (goes key_space _ _ (step_persist key_space key_a)
        (stays (remove_expire (assoc Robj) (assoc ℕ) key_space key_a)))
      key_space-IsTimed

-- The first database has the second key, and the second one is empty.
abbrev no_keys : KeySpace (assoc Robj) (assoc ℕ)
no_keys = record key_space { dict = []; expires = [] }

abbrev one : Robj
one = record unused { ptr = number (pos 1); encoding = encoding_int }

one_read : get_int_from_object_or_reply numbers (some one) none ≡ ok (pos 1)
unfolding get_int_from_object_or_reply get_range_long_from_object_or_reply
    get_long_from_object_or_reply get_long_long_from_object_or_reply
one_read = refl

missing_b :
    (lookup_key_write (assoc Robj) (assoc ℕ) decimals server untouching no_keys key_b).0 ≡ none
unfolding lookup_key_write lookup_key assoc_find
missing_b = refl

no_keys-IsTimed : IsTimed (assoc Robj) (assoc ℕ) decimals no_keys
unfolding assoc_find
no_keys-IsTimed k h = refl

move_command-Moved_example :
    (src' dst' : KeySpace (assoc Robj) (assoc ℕ)) × (move_command
        (assoc Robj)
        (assoc ℕ)
        decimals
        numbers
        false
        server
        untouching
        (key_space ∷ no_keys ∷ [])
        0
        key_b
        one
      ≡ some (long_reply 1, set (set (key_space ∷ no_keys ∷ []) 0 src') 1 dst', 1))
    × Moved
        (assoc Robj)
        (assoc ℕ)
        decimals
        key_b
        often_used
        (assoc_find key_space.expires key_b)
        key_space
        no_keys
        src'
        dst'
move_command-Moved_example =
    move_command-Moved (assoc Robj) (assoc ℕ) decimals numbers server untouching
      (key_space ∷ no_keys ∷ []) 0 1 key_b one one_read (omega arith) (λ e. absurd (omega arith))
      refl refl refl refl no_keys-IsTimed found_b missing_b (omega arith) (omega arith)
