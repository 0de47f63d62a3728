-- ===== src/Rdb/Strings/Integers.antt =====
-- The integer encoding of strings (rdb.c): its first byte, and the values it stands for.
use red_opt.Base.{ℕ, ◌+◌, ◌*◌, ◌/◌, ◌%◌, ◌^◌, ◌<◌, ◌≡◌, refl, ap, List, [], ◌∷◌, ◌++◌}
use red_opt.Base.{true, false, some, >>=-some, ◌==◌, arith}
use red_opt.Base.{ℤ, signed}
use red_opt.Object.Strings.{Numbers}
use red_opt.Rdb.{Encodings, RioApi, load_len_typed, rdb_load_len}
use red_opt.Rdb.RoundTrip.{first_read}
use red_opt.Rdb.Strings.{fits, byte, of_le_bytes, load_integer}

-- The bytes give back the value.
one_byte : (v : ℤ) → fits (2 ^ 7) v ≡ true → signed (2 ^ 7) (of_le_bytes (byte v 0 ∷ [])) ≡ v
one_byte v h = ground arith

two_bytes :
    (v : ℤ) → fits (2 ^ 15) v ≡ true → signed (2 ^ 15) (of_le_bytes (byte v 0 ∷ byte v 1 ∷ [])) ≡ v
two_bytes v h = ground arith

four_bytes :
    (v : ℤ)
    → fits (2 ^ 31) v ≡ true
    → signed (2 ^ 31) (of_le_bytes (byte v 0 ∷ byte v 1 ∷ byte v 2 ∷ byte v 3 ∷ [])) ≡ v
four_bytes v h = ground arith

module _ (api : RioApi) (enc : Encodings) where
  open api use {Rio, rio_read, unread}
  open enc use {encval, lenerr, int8, int16, int32}

  -- A first byte of two bits `RDB_ENCVAL` and a code is read as an encoding with that code.
  pub reads_code :
      (code : ℕ) (r : Rio) (rest : List ℕ)
      → code < 64
      → unread r ≡ (encval * 64 + code) ∷ rest
      → (r' : Rio) × (rdb_load_len api enc r ≡ some ((true, code), r')) × (unread r' ≡ rest)
  unfolding rdb_load_len load_len_typed
  reads_code code r rest h u =
      let (r', run, left) = first_read api enc (encval * 64 + code) rest r u in
      let type : (encval * 64 + code) / 64 % 4 ≡ encval = omega (arith, enc.encval_small) in
      let low : (encval * 64 + code) % 64 ≡ code = omega arith in
      let apart : (code == lenerr) ≡ false = ground (arith, enc.lenerr_large) in
      let here : (encval == encval) ≡ true = ground arith in
      (r', rw (run, type, low, here, apart) refl, left)

  module _ (num : Numbers) where
    -- A value in the bytes that its encoding writes.
    abbrev pub Decodes : ℕ → List ℕ → ℤ → Type 0
    Decodes code bytes v =
        (r : Rio) (rest : List ℕ)
        → unread r ≡ bytes ++ rest
        → (r' : Rio) × (load_integer api enc num r code ≡ some (v, r')) × (unread r' ≡ rest)

    pub load_8-Decodes : (v : ℤ) → fits (2 ^ 7) v ≡ true → Decodes int8 (byte v 0 ∷ []) v
    unfolding load_integer
    load_8-Decodes v h r rest u =
        let (r', run, left) = api.rio_read-unread r (byte v 0 ∷ []) rest u in
        let here : (int8 == int8) ≡ true = ground arith in
        (r', rw (here, load_integer) (>>=-some _ run (ap (λ x. some (x, r')) (one_byte v h))), left)

    pub load_16-Decodes :
        (v : ℤ) → fits (2 ^ 15) v ≡ true → Decodes int16 (byte v 0 ∷ byte v 1 ∷ []) v
    unfolding load_integer
    load_16-Decodes v h r rest u =
        let (r', run, left) = api.rio_read-unread r (byte v 0 ∷ byte v 1 ∷ []) rest u in
        let not_8 : (int16 == int8) ≡ false = ground (arith, enc.int8_apart) in
        let here : (int16 == int16) ≡ true = ground arith in
        (
          r',
          rw (not_8, here, load_integer) (>>=-some _ run (ap (λ x. some (x, r')) (two_bytes v h))),
          left,
        )

    pub load_32-Decodes :
        (v : ℤ)
        → fits (2 ^ 31) v ≡ true
        → Decodes int32 (byte v 0 ∷ byte v 1 ∷ byte v 2 ∷ byte v 3 ∷ []) v
    unfolding load_integer
    load_32-Decodes v h r rest u =
        let (r', run, left) =
          api.rio_read-unread r (byte v 0 ∷ byte v 1 ∷ byte v 2 ∷ byte v 3 ∷ []) rest u in
        let not_8 : (int32 == int8) ≡ false = ground (arith, enc.int8_apart) in
        let not_16 : (int32 == int16) ≡ false = ground (arith, enc.int16_apart) in
        let here : (int32 == int32) ≡ true = ground arith in
        (
          r',
          rw (not_8, not_16, here, load_integer)
              (>>=-some _ run (ap (λ x. some (x, r')) (four_bytes v h))),
          left,
        )
