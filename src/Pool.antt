-- ===== src/Pool.antt =====
-- The eviction pool of evict.c: sixteen entries with a buffer each, and the insertion of a
-- candidate, which `evictionPoolPopulate` does by idle time and
-- `evictionPoolPopulateLRUHistogram` by score.
pub mod Spec
pub mod Shape
pub mod Room
pub mod Place
pub mod Insert
pub mod Order
pub mod Best
use red_opt.Base.{ℕ, zero, suc, ◌+◌, ◌-◌, ◌≡◌, refl, List, [], ◌∷◌, Bool, true, false, not, ◌&&◌}
use red_opt.Base.{Option, none, some, length, get_elem?, modify, memmove, ltb, ◌==◌, if◌then◌else◌}
use red_opt.Double.{Double}

-- A key as its bytes.
abbrev pub Sds : Type 0
Sds = List ℕ

-- `NULL`, a copy of the key of its own, or the buffer with a number.
pub data KeyPtr : Type 0 where
  null : KeyPtr
  dup : Sds → KeyPtr
  buf : ℕ → KeyPtr

-- `struct evictionPoolEntry`, less `num_accesses` and `access_times`, which no code touches.
pub record Entry (F : Type 0) : Type 0 where
  pub idle : ℕ
  pub key : KeyPtr
  pub cached : ℕ
  pub dbid : ℕ
  pub score : F

-- `EvictionPoolLRU`, with the contents of the buffers.
pub record Pool (F : Type 0) : Type 0 where
  pub entries : List (Entry F)
  pub bufs : ℕ → Sds

abbrev pub pool_size : ℕ
pool_size = 16

abbrev pub cached_size : ℕ
cached_size = 255

abbrev pub is_null : KeyPtr → Bool
is_null null = true
is_null (dup s) = false
is_null (buf i) = false

abbrev pub name : (ℕ → Sds) → KeyPtr → Sds
name bufs null = []
name bufs (dup s) = s
name bufs (buf i) = bufs i

-- The loop of `evictionPoolAlloc`, with the rounds left: entry `j` gets a buffer of its own.
unfoldable pub alloc_entries : {F : Type 0} → F → ℕ → ℕ → List (Entry F)
alloc_entries zero_score zero j = []
alloc_entries zero_score (suc n) j =
    record { idle = 0; key = null; cached = j; dbid = 0; score = zero_score }
    ∷ alloc_entries zero_score n (j + 1)

unfoldable pub eviction_pool_alloc : {F : Type 0} → F → Pool F
eviction_pool_alloc zero_score = record {
  entries = alloc_entries zero_score pool_size 0;
  bufs = λ i. [];
}

-- By which of its fields an entry is ranked: `idle` or `score`.
pub record Ranking (F : Type 0) : Type 1 where
  pub R : Type 0
  pub rank : Entry F → R
  pub put : R → Entry F → Entry F
  pub lt : R → R → Bool
  pub rank-put : (r : R) (e : Entry F) → rank (put r e) ≡ r
  pub key-put : (r : R) (e : Entry F) → (put r e).key ≡ e.key
  pub cached-put : (r : R) (e : Entry F) → (put r e).cached ≡ e.cached
  pub dbid-put : (r : R) (e : Entry F) → (put r e).dbid ≡ e.dbid

abbrev pub by_idle : {F : Type 0} → Ranking F
by_idle {F} = record {
  R = ℕ;
  rank = λ e. e.idle;
  put = λ r e. record e { idle = r };
  lt = ltb;
  rank-put = λ r e. refl;
  key-put = λ r e. refl;
  cached-put = λ r e. refl;
  dbid-put = λ r e. refl;
}

abbrev pub by_score : (d : Double) → Ranking d.F
by_score d = record {
  R = d.F;
  rank = λ e. e.score;
  put = λ r e. record e { score = r };
  lt = d.lt;
  rank-put = λ r e. refl;
  key-put = λ r e. refl;
  cached-put = λ r e. refl;
  dbid-put = λ r e. refl;
}

-- What is written through `pool[k].cached`.
abbrev pub write_buf : (ℕ → Sds) → ℕ → Sds → ℕ → Sds
write_buf bufs i key j = if j == i then key else bufs j

-- The key of an entry: a copy of its own if it does not fit the buffer.
abbrev pub key_for : Sds → ℕ → KeyPtr
key_for key cached = if ltb cached_size (length key) then dup key else buf cached

abbrev pub fill_bufs : (ℕ → Sds) → Sds → ℕ → ℕ → Sds
fill_bufs bufs key i = if ltb cached_size (length key) then bufs else write_buf bufs i key

module _ {F : Type 0} where
  abbrev pub null_of : Option (Entry F) → Bool
  null_of none = false
  null_of (some e) = is_null e.key

  abbrev pub cached_of : Option (Entry F) → ℕ
  cached_of none = 0
  cached_of (some e) = e.cached

  abbrev pub null_at : List (Entry F) → ℕ → Bool
  null_at es k = null_of (get_elem? es k)

  abbrev pub cached_at : List (Entry F) → ℕ → ℕ
  cached_at es k = cached_of (get_elem? es k)

  abbrev pub set_cached : ℕ → Entry F → Entry F
  set_cached c e = record e { cached = c }

  module _ (rk : Ranking F) where
    open rk use {R, rank, put, lt}

    -- `while (k < EVPOOL_SIZE && pool[k].key && pool[k].idle < idle) k++`
    unfoldable pub find_slot : List (Entry F) → R → ℕ
    find_slot [] r = 0
    find_slot (e ∷ es) r =
        let next = suc (find_slot es r) in if not (is_null e.key) && lt (rank e) r then next else 0

    -- The choice of the place: `none` skips the candidate; otherwise the place, in the pool after
    -- the entries have been moved.
    unfoldable pub make_room : List (Entry F) → R → Option (ℕ × List (Entry F))
    make_room es r =
        let k = find_slot es r in
        if k == 0 && not (null_at es (pool_size - 1))
        then none
        else if ltb k pool_size && null_at es k
        then some (k, es)
        else if null_at es (pool_size - 1)
        then some (
          k,
          modify k (set_cached (cached_at es (pool_size - 1)))
              (memmove (k + 1) k (pool_size - k - 1) es),
        )
        else some (k - 1, modify (k - 1) (set_cached (cached_at es 0)) (memmove 0 1 (k - 1) es))

    abbrev pub fill_entry : Sds → R → ℕ → Entry F → Entry F
    fill_entry key r dbid e = put r (record e { key = key_for key e.cached; dbid = dbid })

    unfoldable pub insert_candidate : Pool F → Sds → R → ℕ → Pool F
    insert_candidate pool key r dbid = elim (make_room pool.entries r) [
      | none ↦ pool
      | some (k, es) ↦ record {
        entries = modify k (fill_entry key r dbid) es;
        bufs = fill_bufs pool.bufs key (cached_at es k);
      }
    ]
