-- ===== src/Rdb/Strings/Loads.antt =====
-- `rdbGenericLoadStringObject` on what `rdbSaveRawString` writes (rdb.c).
use red_opt.Base.{ℕ, ◌+◌, ◌*◌, ◌^◌, ◌<◌, ◌≡◌, refl, sym, ap, ◌∙◌, List, [], ◌∷◌, ◌++◌}
use red_opt.Base.{true, false, ◌&&◌, ◌||◌, Option, none, some, ◌>>=◌, >>=-eq-some}
use red_opt.Base.{
  length, length-append, ltb, ◌==◌, if◌then◌else◌, arith, Bool-cases, inl, inr, ℤ, IsLong,
}
use mathlib.Core.List.{append_assoc, append-nil}
use mathlib.Core.Path.{subst}
use red_opt.Server.{Server}
use red_opt.Object.{Garbage}
use red_opt.Object.Strings.{Numbers, SharedObjects, IsString, text, create_string_object, is_small}
use red_opt.Object.Strings.{
  create_string_object_from_long_long_with_options, create_string_object_from_long_long_with_sds,
}
use red_opt.Object.Strings.Encode.{Holds, create_string_object-Holds, for_value-Kept}
use red_opt.Rdb.{Encodings, RioApi, rdb_write_raw, rdb_save_len, rdb_load_len}
use red_opt.Rdb.RoundTrip.{ReadsBack, written_raw, rdb_load_len_by_ref-rdb_save_len}
use red_opt.Rdb.Strings.{Lzf, LoadFlags, Loaded, buffer, object, fits, byte, rdb_encode_integer}
use red_opt.Rdb.Strings.{
  save_verbatim, integer_object, rdb_load_integer_object, load_verbatim,
  rdb_generic_load_string_object,
}
use red_opt.Rdb.Strings.Integers.{
  reads_code, Decodes, load_8-Decodes, load_16-Decodes, load_32-Decodes,
}

pub some_injective : {A : Type 0} {a b : A} → some a ≡ some b → a ≡ b
some_injective e = cc

module _ (api : RioApi) (enc : Encodings) (num : Numbers) (lib : Lzf) (shared : SharedObjects)
    (server : Server) (garbage : Garbage) where
  open api use {Rio, written, unread}
  open enc use {encval, lenerr, int8, int16, int32, lzf}

  abbrev load : Rio → LoadFlags → Option (Loaded × Rio)
  load = rdb_generic_load_string_object api enc num lib shared server garbage

  -- The string in the form that the flags ask for: bytes if they have RDB_LOAD_PLAIN or
  -- RDB_LOAD_SDS, otherwise a string object.
  abbrev pub InForm : LoadFlags → List ℕ → Loaded → Type 0
  InForm flags s (buffer b) = ((flags.plain || flags.sds) ≡ true) × (b ≡ s)
  InForm flags s (object o) = ((flags.plain || flags.sds) ≡ false) × IsString o × (text num o ≡ s)

  -- Loading these bytes, whatever follows, gives this string in the form that is asked for, and
  -- leaves what follows.
  abbrev pub LoadsBack : List ℕ → List ℕ → Type 0
  LoadsBack bytes s =
      (flags : LoadFlags) (r : Rio) (rest : List ℕ)
      → unread r ≡ bytes ++ rest
      → (loaded : Loaded) × (r' : Rio) × (rdb_generic_load_string_object api enc num lib shared
            server garbage r flags
          ≡ some (loaded, r'))
        × InForm flags s loaded
        × (unread r' ≡ rest)

  -- What is claimed of a successful save.
  abbrev pub SavedString : Rio → List ℕ → Rio → ℕ → Type 0
  SavedString w s w' n =
      (bytes : List ℕ) × (written w' ≡ written w ++ bytes) × (n ≡ length bytes) × LoadsBack bytes s

  -- One write.
  pub raw :
      (w : Rio) (bytes : List ℕ) {w' : Rio} {n : ℕ}
      → rdb_write_raw api w bytes ≡ some (w', n)
      → (written w' ≡ written w ++ bytes) × (n ≡ length bytes)
  unfolding rdb_write_raw
  raw w bytes {w'} {n} h =
      let (r, e, k) = >>=-eq-some (api.rio_write w bytes) _ h in
      let count : length bytes ≡ n = cc in (written_raw api enc w bytes h, sym count)

  with_sds-Holds :
      (v : ℤ)
      → Holds num
          (num.ll2string v)
          (create_string_object_from_long_long_with_sds num shared v garbage)
  unfolding create_string_object_from_long_long_with_sds
      create_string_object_from_long_long_with_options
  with_sds-Holds v =
      let never : (is_small v && false) ≡ false = ground arith in
      rw never (create_string_object-Holds num (num.ll2string v) garbage)

  integer_object-InForm :
      (flags : LoadFlags) (v : ℤ)
      → IsLong v
      → InForm flags
          (num.ll2string v)
          (integer_object api enc num lib shared server garbage flags v)
  unfolding integer_object Holds
  integer_object-InForm flags v h = elim (Bool-cases (flags.plain || flags.sds)) [
    | inl bytes ↦ rw (bytes, integer_object) (bytes, refl)
    | inr as_object ↦ elim (Bool-cases flags.encode) [
      | inl encoded ↦
          let (is, same) = (for_value-Kept num shared server v garbage h).0 in
          rw (as_object, encoded, integer_object) (as_object, is, same)
      | inr plain ↦
          let (is, same) = with_sds-Holds v in
          rw (as_object, plain, integer_object) (as_object, is, same)
    ]
  ]

  -- A code and the bytes of a value.
  loads_integer :
      (code : ℕ) (bytes : List ℕ) (v : ℤ)
      → code < 64
      → (code == int8 || (code == int16 || code == int32)) ≡ true
      → IsLong v
      → Decodes api enc num code bytes v
      → LoadsBack ((encval * 64 + code) ∷ bytes) (num.ll2string v)
  unfolding rdb_generic_load_string_object rdb_load_integer_object
  loads_integer code bytes v h which long decodes flags r rest u =
      let (r1, run, left) = reads_code api enc code r (bytes ++ rest) h u in
      let (r2, run', left') = decodes r1 rest left in
      (
        integer_object api enc num lib shared server garbage flags v,
        r2,
        rw (run, which, run') refl,
        integer_object-InForm flags v long,
        left',
      )

  -- The integer encoding is read back.
  pub encoded_integer :
      (v : ℤ) (buf : List ℕ)
      → IsLong v
      → rdb_encode_integer api enc num v ≡ some buf
      → LoadsBack buf (num.ll2string v)
  unfolding rdb_encode_integer
  encoded_integer v buf long e = elim (Bool-cases (fits (2 ^ 7) v)) [
    | inl one ↦
        let e' : some _ ≡ some buf = rw (one, rdb_encode_integer) at e in
        subst (λ b. LoadsBack b (num.ll2string v)) (some_injective e')
          (loads_integer int8 (byte v 0 ∷ []) v enc.int8_small (ground arith) long
            (load_8-Decodes api enc num v one))
    | inr more ↦ elim (Bool-cases (fits (2 ^ 15) v)) [
      | inl two ↦
          let e' : some _ ≡ some buf = rw (more, two, rdb_encode_integer) at e in
          subst (λ b. LoadsBack b (num.ll2string v)) (some_injective e')
            (loads_integer int16 (byte v 0 ∷ byte v 1 ∷ []) v enc.int16_small (ground arith) long
              (load_16-Decodes api enc num v two))
      | inr large ↦ elim (Bool-cases (fits (2 ^ 31) v)) [
        | inl four ↦
            let e' : some _ ≡ some buf = rw (more, large, four, rdb_encode_integer) at e in
            subst (λ b. LoadsBack b (num.ll2string v)) (some_injective e')
              (loads_integer int32 (byte v 0 ∷ byte v 1 ∷ byte v 2 ∷ byte v 3 ∷ []) v
                enc.int32_small (ground arith) long (load_32-Decodes api enc num v four))
        | inr none_fits ↦
            let e' : none ≡ some buf = rw (more, large, none_fits, rdb_encode_integer) at e in
            absurd cc
      ]
    ]
  ]

  -- A length that has been saved is loaded.
  pub loads_len :
      (bytes : List ℕ) (len : ℕ) (r : Rio) (rest : List ℕ)
      → len < 2 ^ 63
      → ReadsBack api enc bytes len
      → unread r ≡ bytes ++ rest
      → (r' : Rio) × (rdb_load_len api enc r ≡ some ((false, len), r')) × (unread r' ≡ rest)
  unfolding rdb_load_len
  loads_len bytes len r rest h back u =
      let (r', run, left) = back r rest u in
      let apart : (len == lenerr) ≡ false = ground (arith, enc.lenerr_large) in
      (r', rw (run, apart) refl, left)

  -- The bytes of a string after its length.
  loads_verbatim :
      (s : List ℕ) (flags : LoadFlags) (r : Rio) (rest : List ℕ)
      → lib.can_alloc (length s) ≡ true
      → unread r ≡ s ++ rest
      → (loaded : Loaded) × (r' : Rio) × (load_verbatim api enc num lib shared server garbage r
            (length s)
            flags
          ≡ some (loaded, r'))
        × InForm flags s loaded
        × (unread r' ≡ rest)
  unfolding load_verbatim Holds
  loads_verbatim s flags r rest room u =
      let (r', run, left) = read_string s r rest u in
      (
        if flags.plain || flags.sds then buffer s else object (create_string_object s garbage),
        r',
        rw (room, run) refl,
        in_form,
        left,
      )
    where
      read_string :
          (s : List ℕ) (r : Rio) (rest : List ℕ)
          → unread r ≡ s ++ rest
          → (r' : Rio) × ((if ltb 0 (length s) then api.rio_read r (length s) else some ([], r))
              ≡ some (s, r'))
            × (unread r' ≡ rest)
      read_string [] r rest u = (r, refl, u)
      read_string (x ∷ s) r rest u =
          let more : ltb 0 (length (x ∷ s)) ≡ true = ground arith in
          let (r', run, left) = api.rio_read-unread r (x ∷ s) rest u in (r', rw more run, left)

      in_form :
          InForm flags s
            (if flags.plain || flags.sds then buffer s else object (create_string_object s garbage))
      in_form = elim (Bool-cases (flags.plain || flags.sds)) [
        | inl bytes ↦ rw bytes (bytes, refl)
        | inr as_object ↦
            let (is, same) = create_string_object-Holds num s garbage in
            rw as_object (as_object, is, same)
      ]

  -- The length with the bytes.
  pub saved_verbatim :
      (w : Rio) (s : List ℕ) {w' : Rio} {n : ℕ}
      → length s < 2 ^ 63
      → lib.can_alloc (length s) ≡ true
      → save_verbatim api enc num w s ≡ some (w', n)
      → SavedString w s w' n
  unfolding save_verbatim rdb_generic_load_string_object
  saved_verbatim w s {w'} {n} small room h =
      let (a, e1, k1) = >>=-eq-some (rdb_save_len api enc w (length s)) _ h in
      let (head, put, size, back) =
        rdb_load_len_by_ref-rdb_save_len api enc w (length s) (omega arith) e1 in
      let (put', size') = rest_written s a k1 in
      (
        head ++ s,
        put' ∙ ap (λ l. l ++ s) put ∙ append_assoc (written w) head s,
        omega (arith, size, size', length-append head s),
        λ flags r rest u.
            let (r1, run1, left1) =
              loads_len head (length s) r (s ++ rest) small back (u ∙ append_assoc head s rest) in
            let (loaded, r2, run2, same, left2) = loads_verbatim s flags r1 rest room left1 in
            (loaded, r2, rw run1 run2, same, left2),
      )
    where
      rest_written :
          (s : List ℕ) (a : Rio × ℕ)
          → (if ltb 0 (length s)
              then (rdb_write_raw api a.0 s >>= λ b. some (b.0, a.1 + length s))
              else some a)
            ≡ some (w', n)
          → (written w' ≡ written a.0 ++ s) × (n ≡ a.1 + length s)
      rest_written [] a h =
          let same : a ≡ (w', n) = some_injective h in
          let same_w : a.0 ≡ w' = ap (λ x. x.0) same in
          let same_n : a.1 ≡ n = ap (λ x. x.1) same in
          (ap written (sym same_w) ∙ sym (append-nil (written a.0)), omega arith)
      rest_written (x ∷ s) a h =
          let more : ltb 0 (length (x ∷ s)) ≡ true = ground arith in
          let (b, e, k) = >>=-eq-some (rdb_write_raw api a.0 (x ∷ s)) _ (rw more at h) in
          let same = some_injective k in
          let same_w : b.0 ≡ w' = ap (λ x. x.0) same in
          (ap written (sym same_w) ∙ (raw a.0 (x ∷ s) e).0, sym (ap (λ x. x.1) same))
