-- ===== src/Object/Strings/Fresh.antt =====
-- The access history of a string object that has just been created (object.c).
use red_opt.Base.{ℕ, ◌%◌, ◌^◌, ◌≤◌, ◌<◌, ◌≡◌, refl, List, true, false, length, take, leb, arith}
use red_opt.Server.{Server, flag_lfu, flag_lru_histogram}
use red_opt.Clock.{lru_clock}
use red_opt.Object.{Garbage, init_object_lru_or_lfu}
use red_opt.Object.History.{IsRobj, history, remember, init_or_update_objectt_room}
use red_opt.Object.Strings.{embstr_size_limit, create_string_object, create_embedded_string_object}

created :
    (s : List ℕ) (garbage : Garbage)
    → length s ≤ embstr_size_limit
    → create_string_object s garbage ≡ create_embedded_string_object s garbage
unfolding create_string_object
created s garbage h = let short : leb (length s) 44 ≡ true = ground arith in rw short refl

-- A string of at most 44 bytes keeps in its object what the memory held in the place of the history
-- and of its count. When it is stored under a histogram policy (other than LFU),
-- the time is appended to these left-overs, as far as they look like a history with room: the
-- new object remembers accesses that it never had.
pub init_object_lru_or_lfu-create_string_object :
    (server : Server) (s : List ℕ) (garbage : Garbage)
    → length s ≤ embstr_size_limit
    → flag_lfu server.maxmemory_policy ≡ false
    → flag_lru_histogram server.maxmemory_policy ≡ true
    → length garbage.times ≡ 4
    → garbage.count < 4
    → 2 ≤ length garbage.after
    → history (init_object_lru_or_lfu server (create_string_object s garbage))
      ≡ remember (take garbage.count garbage.times) (lru_clock server % 2 ^ 24)
unfolding init_object_lru_or_lfu create_embedded_string_object
init_object_lru_or_lfu-create_string_object server s garbage h lfu histogram four room slack =
    let o = record (create_embedded_string_object s garbage) { lru = lru_clock server } in
    let laid : IsRobj o = record { cells = four; counted = omega arith; room = slack } in
    rw (created s garbage h, init_object_lru_or_lfu, lfu, histogram)
      (init_or_update_objectt_room o (lru_clock server) laid room).0
