-- ===== src/Rdb/Strings.antt =====
-- The strings of the RDB format (rdb.c): as integers, compressed, or verbatim. `lzf_compress` and
-- `lzf_decompress` are parameters, and whether memory can be had.
pub mod Integers
pub mod Loads
pub mod Compressed
use red_opt.Base.{
  ℕ, ◌+◌, ◌-◌, ◌*◌, ◌/◌, ◌%◌, ◌^◌, ◌≤◌, ◌<◌, ◌≡◌, List, [], ◌∷◌, Bool, true, false, not, ◌&&◌, ◌||◌,
}
use red_opt.Base.{Option, none, some, ◌>>=◌, length, ltb, leb, ◌==◌, if◌then◌else◌}
use red_opt.Base.{ℤ, pos, negsuc, pos_part, neg_part, ltb_ℤ, signed, bits64}
use red_opt.Server.{Server}
use red_opt.Object.{Robj, Ptr, chars, number, null, Garbage, create_object}
use red_opt.Object.Strings.{
  Numbers, SharedObjects, obj_string, encoding_int, embstr_size_limit, sds_encoded_object,
  create_string_object,
}
use red_opt.Object.Strings.{
  create_string_object_from_long_long_for_value, create_string_object_from_long_long_with_sds,
}
use red_opt.Rdb.{Encodings, RioApi, rdb_write_raw, with_size, rdb_save_len, rdb_load_len}

-- A result of 0 of `lzf_compress` is `none`. `can_alloc` is whether `ztrymalloc` and
-- `sdstrynewlen` have memory of a size.
pub record Lzf : Type 0 where
  pub compress : List ℕ → ℕ → Option (List ℕ)
  pub decompress : List ℕ → ℕ → Option (List ℕ)
  pub can_alloc : ℕ → Bool
  pub decompress-compress :
      (s : List ℕ) (n : ℕ) (c : List ℕ) → compress s n ≡ some c → decompress c (length s) ≡ some s
  pub length-compress : (s : List ℕ) (n : ℕ) (c : List ℕ) → compress s n ≡ some c → length c ≤ n

-- RDB_LOAD_PLAIN, RDB_LOAD_SDS and RDB_LOAD_ENC.
pub record LoadFlags : Type 0 where
  pub plain : Bool
  pub sds : Bool
  pub encode : Bool

-- Bytes of `zmalloc` or of an sds, or an object.
pub data Loaded : Type 0 where
  buffer : List ℕ → Loaded
  object : Robj → Loaded

-- Within the range of a signed number of `2 * half` values.
abbrev pub fits : ℕ → ℤ → Bool
fits half v = not (ltb_ℤ v (negsuc (half - 1))) && not (ltb_ℤ (pos (half - 1)) v)

-- Byte `i` of a number, `(value >> 8 * i) & 0xFF`.
abbrev pub byte : ℤ → ℕ → ℕ
byte v i = bits64 v / 256 ^ i % 256

-- The bytes of a number, the lowest first.
abbrev pub of_le_bytes : List ℕ → ℕ
of_le_bytes [] = 0
of_le_bytes (b ∷ bs) = b + 256 * of_le_bytes bs

module _ (api : RioApi) (enc : Encodings) (num : Numbers) where
  open api use {Rio, rio_read}
  open enc use {encval, int8, int16, int32, lzf}
  open num use {string2ll, ll2string}

  -- A result of 0 is `none`. The bits that `|` joins are apart.
  unfoldable pub rdb_encode_integer : ℤ → Option (List ℕ)
  rdb_encode_integer value =
      if fits (2 ^ 7) value
      then some ((encval * 64 + int8) ∷ byte value 0 ∷ [])
      else if fits (2 ^ 15) value
      then some ((encval * 64 + int16) ∷ byte value 0 ∷ byte value 1 ∷ [])
      else if fits (2 ^ 31) value
      then some
          ((encval * 64 + int32) ∷ byte value 0 ∷ byte value 1 ∷ byte value 2 ∷ byte value 3 ∷ [])
      else none

  unfoldable pub rdb_try_integer_encoding : List ℕ → Option (List ℕ)
  rdb_try_integer_encoding s = string2ll s >>= rdb_encode_integer

  -- `(RDB_ENCVAL<<6)|RDB_ENC_LZF`, the two lengths and the data, with the sum of what they take.
  unfoldable pub rdb_save_lzf_blob : Rio → List ℕ → ℕ → Option (Rio × ℕ)
  rdb_save_lzf_blob rdb content original_len =
      rdb_write_raw api rdb ((encval * 64 + lzf) ∷ []) >>= λ a.
      rdb_save_len api enc a.0 (length content) >>= λ b.
      rdb_save_len api enc b.0 original_len >>= λ c.
      rdb_write_raw api c.0 content >>= λ d. some (d.0, a.1 + b.1 + c.1 + d.1)

  -- The length and the bytes.
  unfoldable pub save_verbatim : Rio → List ℕ → Option (Rio × ℕ)
  save_verbatim rdb s = rdb_save_len api enc rdb (length s) >>= λ a.
      if ltb 0 (length s)
      then (rdb_write_raw api a.0 s >>= λ b. some (b.0, a.1 + length s))
      else some a

  -- Where the encoding as an integer has bytes, they are what is written.
  abbrev pub or_integer : Rio → Option (List ℕ) → Option (Rio × ℕ) → Option (Rio × ℕ)
  or_integer rdb none otherwise = otherwise
  or_integer rdb (some buf) otherwise = rdb_write_raw api rdb buf

  unfoldable pub rdb_save_long_long_as_string_object : Rio → ℤ → Option (Rio × ℕ)
  rdb_save_long_long_as_string_object rdb value = or_integer rdb (rdb_encode_integer value) (
      rdb_save_len api enc rdb (length (ll2string value)) >>= λ a.
      rdb_write_raw api a.0 (ll2string value) >>= λ b. some (b.0, a.1 + b.1))

  -- The read and the value of `rdbLoadIntegerObject`; `none` is NULL.
  unfoldable pub load_integer : Rio → ℕ → Option (ℤ × Rio)
  load_integer rdb enctype =
      if enctype == int8
      then (rio_read rdb 1 >>= λ got. some (signed (2 ^ 7) (of_le_bytes got.0), got.1))
      else if enctype == int16
      then (rio_read rdb 2 >>= λ got. some (signed (2 ^ 15) (of_le_bytes got.0), got.1))
      else if enctype == int32
      then (rio_read rdb 4 >>= λ got. some (signed (2 ^ 31) (of_le_bytes got.0), got.1))
      else none

  module _ (lib : Lzf) where
    open lib use {compress, decompress, can_alloc}

    -- `some none` is the result 0: the string is not compressed.

    unfoldable pub rdb_save_lzf_string_object : Rio → List ℕ → Option (Option (Rio × ℕ))
    rdb_save_lzf_string_object rdb s =
        if leb (length s) 4 then some none else (elim (compress s (length s - 4)) [
          | none ↦ some none
          | some out ↦ rdb_save_lzf_blob rdb out (length s) >>= λ saved. some (some saved)
        ])

    -- The part after the integer encoding; `compression` is `server.rdb_compression`.
    unfoldable pub save_bytes : Bool → Rio → List ℕ → Option (Rio × ℕ)
    save_bytes compression rdb s =
        if compression && ltb 20 (length s)
        then (rdb_save_lzf_string_object rdb s >>= λ saved. elim saved [
          | some out ↦ some out
          | none ↦ save_verbatim rdb s
        ])
        else save_verbatim rdb s

    unfoldable pub rdb_save_raw_string : Bool → Rio → List ℕ → Option (Rio × ℕ)
    rdb_save_raw_string compression rdb s =
        or_integer rdb (if leb (length s) 11 then rdb_try_integer_encoding s else none)
          (save_bytes compression rdb s)

    -- `none` is -1, or the failed assertion.
    unfoldable pub rdb_save_string_object : Bool → Rio → Robj → Option (Rio × ℕ)
    rdb_save_string_object compression rdb obj = elim obj.ptr [
      | number v ↦
          if obj.encoding == encoding_int then rdb_save_long_long_as_string_object rdb v else none
      | chars s ↦ if sds_encoded_object obj then rdb_save_raw_string compression rdb s else none
      | null ↦ none
    ]

    module _ (shared : SharedObjects) (s : Server) (garbage : Garbage) where
      -- What `rdbLoadIntegerObject` makes of the value.
      unfoldable pub integer_object : LoadFlags → ℤ → Loaded
      integer_object flags val =
          if flags.plain || flags.sds
          then buffer (ll2string val)
          else if flags.encode
          then object (create_string_object_from_long_long_for_value num shared s val garbage)
          else object (create_string_object_from_long_long_with_sds num shared val garbage)

      unfoldable pub rdb_load_integer_object : Rio → ℕ → LoadFlags → Option (Loaded × Rio)
      rdb_load_integer_object rdb enctype flags =
          load_integer rdb enctype >>= λ got. some (integer_object flags got.0, got.1)

      -- The uncompressed bytes in the form that is asked for.
      abbrev pub lzf_object : LoadFlags → List ℕ → Loaded
      lzf_object flags val =
          if flags.plain || flags.sds
          then buffer val
          else object (create_object obj_string (chars val) garbage)

      unfoldable pub rdb_load_lzf_string_object : Rio → LoadFlags → Option (Loaded × Rio)
      rdb_load_lzf_string_object rdb flags = rdb_load_len api enc rdb >>= λ clen.
          rdb_load_len api enc clen.1 >>= λ len.
          if not (can_alloc clen.0.1) || not (can_alloc len.0.1)
          then none
          else (rio_read len.1 clen.0.1 >>= λ c. decompress c.0 len.0.1 >>= λ val.
              if length val == len.0.1 then some (lzf_object flags val, c.1) else none)

      -- `len` bytes; for a short string in an object, memory that cannot be had ends the program.
      unfoldable pub load_verbatim : Rio → ℕ → LoadFlags → Option (Loaded × Rio)
      load_verbatim rdb len flags =
          if not (can_alloc len) && (flags.plain || (flags.sds || ltb embstr_size_limit len))
          then none
          else ((if ltb 0 len then rio_read rdb len else some ([], rdb)) >>= λ got. some (
            if flags.plain || flags.sds
                then buffer got.0
                else object (create_string_object got.0 garbage),
            got.1,
          ))

      unfoldable pub rdb_generic_load_string_object : Rio → LoadFlags → Option (Loaded × Rio)
      rdb_generic_load_string_object rdb flags = rdb_load_len api enc rdb >>= λ got.
          if not got.0.0
          then load_verbatim got.1 got.0.1 flags
          else if got.0.1 == int8 || (got.0.1 == int16 || got.0.1 == int32)
          then rdb_load_integer_object got.1 got.0.1 flags
          else if got.0.1 == lzf
          then rdb_load_lzf_string_object got.1 flags
          else none
