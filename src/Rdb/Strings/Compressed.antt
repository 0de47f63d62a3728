-- ===== src/Rdb/Strings/Compressed.antt =====
-- Strings as `rdbSaveRawString` writes them, compressed ones and all (rdb.c).
use red_opt.Base.{ℕ, ◌+◌, ◌-◌, ◌*◌, ◌^◌, ◌≤◌, ◌<◌, ◌≡◌, refl, sym, ap, ◌∙◌, List, [], ◌∷◌, ◌++◌}
use red_opt.Base.{Bool, true, false, ◌&&◌, ◌||◌, Option, none, some, ◌>>=◌, >>=-eq-some}
use red_opt.Base.{
  length, length-append, ltb, leb, ◌==◌, if◌then◌else◌, arith, Bool-cases, Option-cases, inl, inr,
}
use mathlib.Core.List.{append_assoc}
use mathlib.Core.Path.{subst}
use red_opt.Server.{Server}
use red_opt.Object.{Garbage, chars, create_object}
use red_opt.Object.Strings.{Numbers, SharedObjects, obj_string, of_chars}
use red_opt.Rdb.{Encodings, RioApi, rdb_write_raw, rdb_save_len}
use red_opt.Rdb.RoundTrip.{ReadsBack, rdb_load_len_by_ref-rdb_save_len}
use red_opt.Rdb.Strings.{Lzf, LoadFlags, Loaded, lzf_object, rdb_save_lzf_blob, rdb_encode_integer}
use red_opt.Rdb.Strings.{
  rdb_save_lzf_string_object, rdb_load_lzf_string_object, rdb_try_integer_encoding,
}
use red_opt.Rdb.Strings.{
  save_verbatim, save_bytes, rdb_save_raw_string, rdb_generic_load_string_object,
}
use red_opt.Rdb.Strings.Integers.{reads_code}
use red_opt.Rdb.Strings.Loads.{
  LoadsBack, SavedString, InForm, raw, loads_len, saved_verbatim, encoded_integer, some_injective,
}

join_all : (w a b c d : List ℕ) → (((w ++ a) ++ b) ++ c) ++ d ≡ w ++ (a ++ (b ++ (c ++ d)))
join_all w a b c d =
    append_assoc ((w ++ a) ++ b) c d
    ∙ append_assoc (w ++ a) b (c ++ d)
    ∙ append_assoc w a (b ++ (c ++ d))

module _ (api : RioApi) (enc : Encodings) (num : Numbers) (lib : Lzf) (shared : SharedObjects)
    (server : Server) (garbage : Garbage) where
  open api use {Rio, written, unread}
  open enc use {encval, int8, int16, int32, lzf}

  -- The code of compressed strings is no other one.
  lzf_code : (lzf == int8 || (lzf == int16 || lzf == int32)) ≡ false
  lzf_code =
      let not_8 : (lzf == int8) ≡ false = ground (arith, enc.int8_apart) in
      let not_16 : (lzf == int16) ≡ false = ground (arith, enc.int16_apart) in
      let not_32 : (lzf == int32) ≡ false = ground (arith, enc.int32_apart) in
      rw (not_8, not_16, not_32) refl

  lzf_object-InForm :
      (flags : LoadFlags) (s : List ℕ)
      → InForm api enc num lib shared server garbage flags s
          (lzf_object api enc num lib shared server garbage flags s)
  unfolding create_object
  lzf_object-InForm flags s = elim (Bool-cases (flags.plain || flags.sds)) [
    | inl bytes ↦ rw bytes (bytes, refl)
    | inr as_object ↦
        let made = create_object obj_string (chars s) garbage in
        rw as_object (as_object, of_chars made s refl refl refl, refl)
  ]

  module _ (s c head_c head_s : List ℕ) (back_c : ReadsBack api enc head_c (length c))
      (back_s : ReadsBack api enc head_s (length s)) (small_c : length c < 2 ^ 63)
      (small_s : length s < 2 ^ 63) (room_c : lib.can_alloc (length c) ≡ true)
      (room_s : lib.can_alloc (length s) ≡ true)
      (opens : lib.decompress c (length s) ≡ some s) where
    -- The lengths and the compressed bytes.
    loads_lzf :
        (flags : LoadFlags) (r : Rio) (rest : List ℕ)
        → unread r ≡ head_c ++ (head_s ++ (c ++ rest))
        → (loaded : Loaded) × (r' : Rio) × (rdb_load_lzf_string_object api enc num lib shared server
              garbage r flags
            ≡ some (loaded, r'))
          × InForm api enc num lib shared server garbage flags s loaded
          × (unread r' ≡ rest)
    unfolding rdb_load_lzf_string_object
    loads_lzf flags r rest u =
        let (r1, run1, left1) =
          loads_len api enc num lib shared server garbage head_c (length c) r
            (head_s ++ (c ++ rest)) small_c back_c u in
        let (r2, run2, left2) =
          loads_len api enc num lib shared server garbage head_s (length s) r1 (c ++ rest) small_s
            back_s left1 in
        let (r3, run3, left3) = api.rio_read-unread r2 c rest left2 in
        let same : (length s == length s) ≡ true = ground arith in
        (
          lzf_object api enc num lib shared server garbage flags s,
          r3,
          rw (run1, run2, room_c, room_s, run3, opens, same) refl,
          lzf_object-InForm flags s,
          left3,
        )

    loads_back :
        LoadsBack api enc num lib shared server garbage
          ((encval * 64 + lzf) ∷ (head_c ++ (head_s ++ c)))
          s
    unfolding rdb_generic_load_string_object
    loads_back flags r rest u =
        let joined : (head_c ++ (head_s ++ c)) ++ rest ≡ head_c ++ (head_s ++ (c ++ rest)) =
          append_assoc head_c (head_s ++ c) rest
          ∙ ap (λ l. head_c ++ l) (append_assoc head_s c rest) in
        let (r1, run1, left1) =
          reads_code api enc lzf r ((head_c ++ (head_s ++ c)) ++ rest) enc.lzf_small u in
        let (loaded, r2, run2, same, left2) = loads_lzf flags r1 rest (left1 ∙ joined) in
        let here : (lzf == lzf) ≡ true = ground arith in
        (loaded, r2, rw (run1, lzf_code, here) run2, same, left2)

  -- The compressed bytes with their header.
  saved_lzf :
      (w : Rio) (s c : List ℕ) {w' : Rio} {n : ℕ}
      → length s < 2 ^ 63
      → length c ≤ length s
      → lib.decompress c (length s) ≡ some s
      → ((k : ℕ) → k ≤ length s → lib.can_alloc k ≡ true)
      → rdb_save_lzf_blob api enc num w c (length s) ≡ some (w', n)
      → SavedString api enc num lib shared server garbage w s w' n
  unfolding rdb_save_lzf_blob
  saved_lzf w s c {w'} {n} small short opens room h =
      let code : List ℕ = (encval * 64 + lzf) ∷ [] in
      let (a, e1, k1) = >>=-eq-some (rdb_write_raw api w code) _ h in
      let (b, e2, k2) = >>=-eq-some (rdb_save_len api enc a.0 (length c)) _ k1 in
      let (d, e3, k3) = >>=-eq-some (rdb_save_len api enc b.0 (length s)) _ k2 in
      let (f, e4, k4) = >>=-eq-some (rdb_write_raw api d.0 c) _ k3 in
      let (put1, size1) = raw api enc num lib shared server garbage w code e1 in
      let (head_c, put2, size2, back_c) =
        rdb_load_len_by_ref-rdb_save_len api enc a.0 (length c) (omega arith) e2 in
      let (head_s, put3, size3, back_s) =
        rdb_load_len_by_ref-rdb_save_len api enc b.0 (length s) (omega arith) e3 in
      let (put4, size4) = raw api enc num lib shared server garbage d.0 c e4 in
      let same_w : f.0 ≡ w' = ap (λ x. x.0) (some_injective k4) in
      let same_n : a.1 + b.1 + d.1 + f.1 ≡ n = ap (λ x. x.1) (some_injective k4) in
      (
        (encval * 64 + lzf) ∷ (head_c ++ (head_s ++ c)),
        ap written (sym same_w)
            ∙ put4
            ∙ ap (λ l. l ++ c) (put3 ∙ ap (λ l. l ++ head_s) (put2 ∙ ap (λ l. l ++ head_c) put1))
            ∙ join_all (written w) code head_c head_s c,
        omega (
          arith,
          size1,
          size2,
          size3,
          size4,
          same_n,
          length-append head_c (head_s ++ c),
          length-append head_s c,
        ),
        loads_back s c head_c head_s back_c back_s (omega arith) small (room (length c) short)
            (room (length s) (omega arith)) opens,
      )

  saved_bytes :
      (compression : Bool) (w : Rio) (s : List ℕ) {w' : Rio} {n : ℕ}
      → length s < 2 ^ 63
      → ((k : ℕ) → k ≤ length s → lib.can_alloc k ≡ true)
      → save_bytes api enc num lib compression w s ≡ some (w', n)
      → SavedString api enc num lib shared server garbage w s w' n
  unfolding save_bytes rdb_save_lzf_string_object
  saved_bytes compression w s small room h =
      let verbatim =
        saved_verbatim api enc num lib shared server garbage w s small
          (room (length s) (omega arith)) in
      elim (Bool-cases (compression && ltb 20 (length s))) [
        | inr off ↦ verbatim (rw off at h)
        | inl try ↦ elim (Bool-cases (leb (length s) 4)) [
          | inl short ↦ verbatim (rw (try, short) at h)
          | inr long ↦ elim (Option-cases (lib.compress s (length s - 4))) [
            | inl none_made ↦ verbatim (rw (try, long, none_made) at h)
            | inr (c, made) ↦
                saved_lzf w s c small (omega (arith, lib.length-compress s (length s - 4) c made))
                  (lib.decompress-compress s (length s - 4) c made) room
                  (kept (rdb_save_lzf_blob api enc num w c (length s)) (rw (try, long, made) at h))
          ]
        ]
      ]
    where
      kept :
          (out : Option (Rio × ℕ)) {x : Rio × ℕ}
          → ((out >>= λ saved. some (some saved)) >>= λ saved. elim saved [
            | some y ↦ some y
            | none ↦ save_verbatim api enc num w s
          ])
            ≡ some x
          → out ≡ some x
      kept none h = absurd cc
      kept (some y) h = h

  -- A string that `rdbSaveRawString` has saved, as an integer, compressed or verbatim, can be
  -- loaded again: it has appended as many bytes to the stream as it returns, and
  -- `rdbGenericLoadStringObject`, on a stream that begins with these bytes, gives the string, as
  -- bytes under RDB_LOAD_PLAIN or RDB_LOAD_SDS and otherwise as a string object, and leaves what
  -- follows. The string is shorter than 2^63, and memory can be had for what is no longer than it.
  pub rdb_generic_load_string_object-rdb_save_raw_string :
      (compression : Bool) (w : Rio) (s : List ℕ) {w' : Rio} {n : ℕ}
      → length s < 2 ^ 63
      → ((k : ℕ) → k ≤ length s → lib.can_alloc k ≡ true)
      → rdb_save_raw_string api enc num lib compression w s ≡ some (w', n)
      → SavedString api enc num lib shared server garbage w s w' n
  unfolding rdb_save_raw_string rdb_try_integer_encoding
  rdb_generic_load_string_object-rdb_save_raw_string compression w s {w'} {n} small room h =
      elim (Option-cases
        (if leb (length s) 11 then rdb_try_integer_encoding api enc num s else none)) [
          | inl bytes ↦ saved_bytes compression w s small room (rw bytes at h)
          | inr (buf, made) ↦
              let (v, parsed, e) =
                >>=-eq-some (num.string2ll s) (rdb_encode_integer api enc num)
                  (in_branch (leb (length s) 11) made) in
              let (put, size) = raw api enc num lib shared server garbage w buf (rw made at h) in
              (
                buf,
                put,
                size,
                subst (LoadsBack api enc num lib shared server garbage buf)
                    (num.ll2string-string2ll s v parsed)
                    (encoded_integer api enc num lib shared server garbage v buf
                      (num.string2ll-IsLong s v parsed) e),
              )
        ]
    where
      in_branch :
          {A : Type 0} (b : Bool) {o : Option A} {x : A}
          → (if b then o else none) ≡ some x
          → o ≡ some x
      in_branch true h = h
      in_branch false h = absurd cc
