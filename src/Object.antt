-- ===== src/Object.antt =====
-- `redisObject` (server.h) and the functions of object.c and db.c that keep its access history.
-- The members `lru` and `access_times` are used by the code as numbers.
pub mod History
pub mod Idle
pub mod Strings
use red_opt.Base.{ℕ, ◌+◌, ◌-◌, ◌*◌, ◌%◌, ◌^◌, List, [], ◌∷◌, ◌++◌, Bool, Option, none, some, ℤ}
use red_opt.Base.{get_or, set, take, drop, memmove, ltb, leb, ◌==◌, if◌then◌else◌}
use red_opt.Server.{Server, flag_lfu, flag_lru_histogram, history_size, lfu_init_val}
use red_opt.Clock.{lru_clock, lfu_get_time_in_minutes}

-- What `ptr` holds: a string of bytes, a number in place of the pointer, or NULL. Values of other
-- types are not modelled.
pub data Ptr : Type 0 where
  chars : List ℕ → Ptr
  number : ℤ → Ptr
  null : Ptr

-- An element of `access_times` takes 4 bytes, so does the
-- bit-field `num_accesses` with its padding; `slack` holds the 4-byte words that follow.
pub record Robj : Type 0 where
  pub kind : ℕ
  pub encoding : ℕ
  pub lru : ℕ
  pub refcount : ℕ
  pub ptr : Ptr
  pub access_times : List ℕ
  pub num_accesses : ℕ
  pub slack : List ℕ

-- The memory from `access_times` on, in words of 4 bytes, and back.
abbrev pub words : Robj → List ℕ
words o = o.access_times ++ (o.num_accesses ∷ o.slack)

abbrev pub from_words : Robj → List ℕ → Robj
from_words o ws = record o {
  access_times = take 4 ws;
  num_accesses = get_or ws 4 0 % 2 ^ 8;
  slack = drop 5 ws;
}

-- A store to `access_times[i]`, also past the end of the array.
abbrev pub store_access : Robj → ℕ → ℕ → Robj
store_access o i now = from_words o (set (words o) i (now % 2 ^ 24))

-- `memmove(access_times, access_times + 1, (HISTORY_SIZE - 1) * sizeof(unsigned long long))`:
-- 24 bytes, which are 6 words.
abbrev pub shift_history : Robj → Robj
shift_history o = from_words o (memmove 0 1 6 (words o))

abbrev pub count_access : Robj → Robj
count_access o = record o { num_accesses = (o.num_accesses + 1) % 2 ^ 8 }

-- What the memory holds that `zmalloc` gives an object: the words from `access_times` on.
pub record Garbage : Type 0 where
  pub times : List ℕ
  pub count : ℕ
  pub after : List ℕ

unfoldable pub create_object : ℕ → Ptr → Garbage → Robj
create_object kind ptr garbage = record {
  kind = kind;
  encoding = 0;
  lru = 0;
  refcount = 1;
  ptr = ptr;
  access_times = set garbage.times 0 0;
  num_accesses = 0;
  slack = garbage.after;
}

unfoldable pub init_or_update_objectt : Robj → ℕ → Robj
unfolding memmove
init_or_update_objectt o now =
    if o.num_accesses == 0
    then store_access (record o { num_accesses = 1 }) 0 now
    else if leb o.num_accesses history_size
    then count_access (store_access o o.num_accesses now)
    else count_access (store_access (shift_history o) (history_size - 1) now)

-- db.c
unfoldable pub update_lru_histogram : Server → Robj → Robj
unfolding memmove
update_lru_histogram s o =
    let now = lru_clock s in
    if ltb o.num_accesses history_size
    then count_access (store_access o o.num_accesses now)
    else store_access (shift_history o) (history_size - 1) now

-- `OBJ_SHARED_REFCOUNT` and `OBJ_STATIC_REFCOUNT`.
abbrev pub shared_refcount : ℕ
shared_refcount = 2 ^ 31 - 1

abbrev pub static_refcount : ℕ
static_refcount = 2 ^ 31 - 2

unfoldable pub init_object_lru_or_lfu : Server → Robj → Robj
init_object_lru_or_lfu s o =
    if o.refcount == shared_refcount
    then o
    else if flag_lfu s.maxmemory_policy
    then record o { lru = lfu_get_time_in_minutes s * 256 + lfu_init_val }
    else if flag_lru_histogram s.maxmemory_policy
    then init_or_update_objectt (record o { lru = lru_clock s }) (lru_clock s)
    else record o { lru = lru_clock s }

-- `none` is the failed assertion.
pub make_object_shared : Robj → Option Robj
make_object_shared o =
    if o.refcount == 1 then some (record o { refcount = shared_refcount }) else none

-- `none` is the panic on an object of the stack.
unfoldable pub incr_ref_count : Robj → Option Robj
incr_ref_count o =
    if ltb o.refcount static_refcount
    then some (record o { refcount = o.refcount + 1 })
    else if o.refcount == shared_refcount
    then some o
    else none

-- What is left of the object; `freed` where its memory was released.
pub data Released : Type 0 where
  freed : Released
  kept : Robj → Released

-- `none` is the panic.
unfoldable pub decr_ref_count : Robj → Option Released
decr_ref_count o =
    if o.refcount == 1
    then some Released.freed
    else if o.refcount == 0
    then none
    else if o.refcount == shared_refcount
    then some (Released.kept o)
    else some (Released.kept (record o { refcount = o.refcount - 1 }))
