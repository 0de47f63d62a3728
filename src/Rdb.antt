-- ===== src/Rdb.antt =====
-- The lengths of the RDB format (rdb.c). The stream `rio` and the numbers of the encodings, which
-- are declared elsewhere, are parameters.
pub mod RoundTrip
pub mod Strings
use red_opt.Base.{
  ℕ, zero, suc, ◌+◌, ◌-◌, ◌*◌, ◌/◌, ◌%◌, ◌^◌, ◌≤◌, ◌<◌, ◌≡◌, ◌≢◌, List, [], ◌∷◌, ◌++◌, Bool, true,
  false,
}
use red_opt.Base.{Option, none, some, ◌>>=◌, length, ltb, leb, ◌==◌, if◌then◌else◌}

-- `RDB_6BITLEN` and its kin: two types of two bits, two whole first bytes, `RDB_ENCVAL`
-- and `RDB_LENERR`; then the encodings of strings, `RDB_ENC_INT8` to `RDB_ENC_LZF`.
pub record Encodings : Type 0 where
  pub bit6 : ℕ
  pub bit14 : ℕ
  pub bit32 : ℕ
  pub bit64 : ℕ
  pub encval : ℕ
  pub lenerr : ℕ
  pub int8 : ℕ
  pub int16 : ℕ
  pub int32 : ℕ
  pub lzf : ℕ
  pub bit6_small : bit6 < 4
  pub bit14_small : bit14 < 4
  pub bit32_small : bit32 < 256
  pub bit64_small : bit64 < 256
  pub bit6_ne_encval : bit6 ≢ encval
  pub bit14_ne_encval : bit14 ≢ encval
  pub bit6_ne_bit14 : bit6 ≢ bit14
  pub bit32_apart : (bit32 / 64 ≢ encval) × (bit32 / 64 ≢ bit6) × (bit32 / 64 ≢ bit14)
  pub bit64_apart : (bit64 / 64 ≢ encval) × (bit64 / 64 ≢ bit6) × (bit64 / 64 ≢ bit14)
  pub bit32_ne_bit64 : bit32 ≢ bit64
  pub encval_small : encval < 4
  pub lenerr_large : 2 ^ 63 ≤ lenerr
  pub int8_small : int8 < 64
  pub int16_small : int16 < 64
  pub int32_small : int32 < 64
  pub lzf_small : lzf < 64
  pub int8_apart : (int8 ≢ int16) × (int8 ≢ int32) × (int8 ≢ lzf)
  pub int16_apart : (int16 ≢ int32) × (int16 ≢ lzf)
  pub int32_apart : int32 ≢ lzf

-- `rioWrite` and `rioRead`, with the bytes written so far and the bytes still to be read. `none`
-- is the return value 0.
pub record RioApi : Type 1 where
  pub Rio : Type 0
  pub rio_write : Rio → List ℕ → Option Rio
  pub rio_read : Rio → ℕ → Option (List ℕ × Rio)
  pub written : Rio → List ℕ
  pub unread : Rio → List ℕ
  pub written-rio_write :
      (r : Rio) (bs : List ℕ) {r' : Rio} → rio_write r bs ≡ some r' → written r' ≡ written r ++ bs
  pub rio_read-unread :
      (r : Rio) (bs rest : List ℕ)
      → unread r ≡ bs ++ rest
      → (r' : Rio) × (rio_read r (length bs) ≡ some (bs, r')) × (unread r' ≡ rest)

-- `htonl` and `htonu64`: the bytes, the highest first; and `ntohl`, `ntohu64`.
abbrev pub bytes4 : ℕ → List ℕ
bytes4 n = n / 2 ^ 24 % 256 ∷ n / 2 ^ 16 % 256 ∷ n / 2 ^ 8 % 256 ∷ n % 256 ∷ []

abbrev pub bytes8 : ℕ → List ℕ
bytes8 n = bytes4 (n / 2 ^ 32) ++ bytes4 n

abbrev pub of_bytes : ℕ → List ℕ → ℕ
of_bytes acc [] = acc
of_bytes acc (b ∷ bs) = of_bytes (acc * 256 + b) bs

module _ (api : RioApi) where
  open api use {Rio, rio_write, rio_read}

  -- -1 is `none`; otherwise the stream and the number of bytes.
  unfoldable pub rdb_write_raw : Rio → List ℕ → Option (Rio × ℕ)
  rdb_write_raw rdb p = rio_write rdb p >>= λ rdb'. some (rdb', length p)

  -- `nwritten`.
  abbrev pub with_size : ℕ → Rio × ℕ → Option (Rio × ℕ)
  with_size size out = some (out.0, size)

  unfoldable pub rdb_save_type : Rio → ℕ → Option (Rio × ℕ)
  rdb_save_type rdb type = rdb_write_raw rdb (type % 256 ∷ [])

  -- The byte that a read of one byte has stored.
  abbrev pub first_byte : List ℕ → ℕ
  first_byte [] = 0
  first_byte (b ∷ bs) = b

  unfoldable pub rdb_load_type : Rio → Option (ℕ × Rio)
  rdb_load_type rdb = rio_read rdb 1 >>= λ got. some (first_byte got.0, got.1)

  module _ (enc : Encodings) where
    open enc use {bit6, bit14, bit32, bit64, encval, lenerr}

    -- The bits that `|` joins are apart, so it adds; a byte keeps the low 8 bits.
    unfoldable pub rdb_save_len : Rio → ℕ → Option (Rio × ℕ)
    rdb_save_len rdb len =
        if ltb len (2 ^ 6)
        then (rdb_write_raw rdb ((len % 256 + bit6 * 64) % 256 ∷ []) >>= with_size 1)
        else if ltb len (2 ^ 14)
        then (rdb_write_raw rdb ((len / 256 % 256 + bit14 * 64) % 256 ∷ len % 256 ∷ [])
            >>= with_size 2)
        else if leb len (2 ^ 32 - 1)
        then (rdb_write_raw rdb (bit32 ∷ []) >>= λ out.
            (rdb_write_raw out.0 (bytes4 len) >>= with_size (1 + 4)))
        else (rdb_write_raw rdb (bit64 ∷ []) >>= λ out.
            (rdb_write_raw out.0 (bytes8 len) >>= with_size (1 + 8)))

    -- The branches on the first byte, which has been read.
    unfoldable pub load_len_typed : ℕ → Rio → Option ((Bool × ℕ) × Rio)
    load_len_typed b rdb =
        if b / 64 % 4 == encval
        then some ((true, b % 64), rdb)
        else if b / 64 % 4 == bit6
        then some ((false, b % 64), rdb)
        else if b / 64 % 4 == bit14
        then (rio_read rdb 1 >>= λ got. some ((false, b % 64 * 256 + first_byte got.0), got.1))
        else if b == bit32
        then (rio_read rdb 4 >>= λ got. some ((false, of_bytes 0 got.0), got.1))
        else if b == bit64
        then (rio_read rdb 8 >>= λ got. some ((false, of_bytes 0 got.0), got.1))
        else none

    -- `none` is -1, a failed read or a corrupt type; otherwise `*isencoded` and `*lenptr`.
    unfoldable pub rdb_load_len_by_ref : Rio → Option ((Bool × ℕ) × Rio)
    rdb_load_len_by_ref rdb = rio_read rdb 1 >>= λ got. load_len_typed (first_byte got.0) got.1

    -- A length that is RDB_LENERR cannot be told from an error, which `none` is. The result comes
    -- with `*isencoded`.
    unfoldable pub rdb_load_len : Rio → Option ((Bool × ℕ) × Rio)
    rdb_load_len rdb =
        rdb_load_len_by_ref rdb >>= λ got. if got.0.1 == lenerr then none else some got
