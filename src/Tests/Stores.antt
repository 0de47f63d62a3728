-- ===== src/Tests/Stores.antt =====
-- The theorems on the RDB lengths and on the memory limit at concrete inputs.
use red_opt.Base.{
  ℕ, ◌-◌, ◌^◌, ◌≤◌, ◌<◌, ◌≡◌, ◌↔◌, refl, List, [], ◌∷◌, ◌++◌, true, false, Option, none, some,
}
use red_opt.Base.{
  length, length-append, take, drop, take-append, drop-append, leb, if◌then◌else◌, arith,
}
use red_opt.Rdb.{Encodings, RioApi, rdb_save_len, rdb_write_raw}
use red_opt.Rdb.RoundTrip.{Saved, rdb_load_len_by_ref-rdb_save_len}
use red_opt.Memory.{Memory, get_maxmemory_state, free_memory_get_not_counted_memory}
use red_opt.Memory.{get_maxmemory_state-over}

-- A stream is what has been written to it and what is still to be read from it.
abbrev Bytes : Type 0
Bytes = List ℕ × List ℕ

abbrev read_bytes : Bytes → ℕ → Option (List ℕ × Bytes)
read_bytes r n = if leb n (length r.1) then some (take n r.1, (r.0, drop n r.1)) else none

pub read_bytes-append :
    (r : Bytes) (bs rest : List ℕ)
    → r.1 ≡ bs ++ rest
    → (r' : Bytes) × (read_bytes r (length bs) ≡ some (bs, r')) × (r'.1 ≡ rest)
read_bytes-append r bs rest e =
    let enough : leb (length bs) (length (bs ++ rest)) ≡ true =
      ground (arith, length-append bs rest) in
    ((r.0, rest), rw (e, enough, take-append bs rest, drop-append bs rest) refl, refl)

pub read_after_write :
    (r : Bytes) (bs : List ℕ) {r' : Bytes} → some (r.0 ++ bs, r.1) ≡ some r' → r'.0 ≡ r.0 ++ bs
read_after_write r bs e = cc

abbrev pub bytes : RioApi
bytes = record {
  Rio = Bytes;
  rio_write = λ r bs. some (r.0 ++ bs, r.1);
  rio_read = read_bytes;
  written = λ r. r.0;
  unread = λ r. r.1;
  written-rio_write = read_after_write;
  rio_read-unread = read_bytes-append;
}

abbrev pub encodings : Encodings
encodings = record {
  bit6 = 0;
  bit14 = 1;
  bit32 = 128;
  bit64 = 129;
  encval = 3;
  lenerr = 2 ^ 64 - 1;
  int8 = 0;
  int16 = 1;
  int32 = 2;
  lzf = 3;
  bit6_small = omega arith;
  bit14_small = omega arith;
  bit32_small = omega arith;
  bit64_small = omega arith;
  bit6_ne_encval = λ e. absurd (omega arith);
  bit14_ne_encval = λ e. absurd (omega arith);
  bit6_ne_bit14 = λ e. absurd (omega arith);
  bit32_apart = (λ e. absurd (omega arith), λ e. absurd (omega arith), λ e. absurd (omega arith));
  bit64_apart = (λ e. absurd (omega arith), λ e. absurd (omega arith), λ e. absurd (omega arith));
  bit32_ne_bit64 = λ e. absurd (omega arith);
  encval_small = omega arith;
  lenerr_large = omega arith;
  int8_small = omega arith;
  int16_small = omega arith;
  int32_small = omega arith;
  lzf_small = omega arith;
  int8_apart = (λ e. absurd (omega arith), λ e. absurd (omega arith), λ e. absurd (omega arith));
  int16_apart = (λ e. absurd (omega arith), λ e. absurd (omega arith));
  int32_apart = λ e. absurd (omega arith);
}

saved_1000 : rdb_save_len bytes encodings ([], []) 1000 ≡ some ((67 ∷ 232 ∷ [], []), 2)
unfolding rdb_save_len rdb_write_raw
saved_1000 = refl

rdb_load_len_by_ref-rdb_save_len_example : Saved bytes encodings ([], []) 1000 (67 ∷ 232 ∷ [], []) 2
rdb_load_len_by_ref-rdb_save_len_example =
    rdb_load_len_by_ref-rdb_save_len bytes encodings ([], []) 1000 (omega arith) saved_1000

-- 2000 bytes used with a limit of 1500, of which 100 are not counted; and 400 bytes later.
abbrev memory : Memory
memory = record {
  used = 2000;
  maxmemory = 1500;
  repl_buffer_mem = 0;
  repl_backlog_size = 0;
  block_size = 64;
  aof_on = true;
  aof_alloc = 100;
}

abbrev freed_memory : Memory
freed_memory = record memory { used = 1600 }

uncounted : free_memory_get_not_counted_memory memory ≡ 100
unfolding free_memory_get_not_counted_memory
uncounted = refl

to_free : (get_maxmemory_state memory false).tofree ≡ some 400
unfolding get_maxmemory_state free_memory_get_not_counted_memory
to_free = refl

get_maxmemory_state-over_example :
    (((get_maxmemory_state memory true).over ≡ true)
      ↔ ((0 < 1500) × (1500 < 2000 - free_memory_get_not_counted_memory memory)))
    × ((get_maxmemory_state memory true).logical ≡ (
        if (get_maxmemory_state memory true).over
        then some (2000 - free_memory_get_not_counted_memory memory)
        else none))
    × ((get_maxmemory_state memory true).tofree ≡ (
        if (get_maxmemory_state memory true).over
        then some (2000 - free_memory_get_not_counted_memory memory - 1500)
        else none))
get_maxmemory_state-over_example = get_maxmemory_state-over memory true

same_overhead :
    free_memory_get_not_counted_memory memory ≤ free_memory_get_not_counted_memory freed_memory
unfolding free_memory_get_not_counted_memory
same_overhead = omega arith
