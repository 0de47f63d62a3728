-- ===== src/Rdb/RoundTrip.antt =====
-- `rdbLoadLenByRef` on what `rdbSaveLen` writes (rdb.c).
use red_opt.Base.{
  ℕ, ◌+◌, ◌-◌, ◌*◌, ◌/◌, ◌%◌, ◌^◌, ◌<◌, ◌≡◌, refl, sym, ap, ◌∙◌, List, [], ◌∷◌, ◌++◌,
}
use red_opt.Base.{false, some, ◌>>=◌, >>=-eq-some, >>=-some, length, ltb, leb}
use red_opt.Base.{arith, Bool-cases, inl, inr, ltb→lt, leb→le}
use mathlib.Core.List.{append_assoc}
use red_opt.Rdb.{
  Encodings, RioApi, bytes4, bytes8, of_bytes, rdb_write_raw, rdb_save_len, first_byte, with_size,
  load_len_typed, rdb_load_len_by_ref,
}

module _ (api : RioApi) (enc : Encodings) where
  open api use {Rio, rio_write, rio_read, written, unread}
  open enc use {bit6, bit14, bit32, bit64, encval}

  -- Reading these bytes, whatever follows, gives this length and leaves what follows.
  abbrev pub ReadsBack : List ℕ → ℕ → Type 0
  ReadsBack bytes len =
      (r : Rio) (rest : List ℕ)
      → unread r ≡ bytes ++ rest
      → (r' : Rio) × (rdb_load_len_by_ref api enc r ≡ some ((false, len), r')) × (unread r' ≡ rest)

  module _ (w : Rio) (bytes : List ℕ) where
    pub written_raw :
        {w' : Rio} {n : ℕ}
        → rdb_write_raw api w bytes ≡ some (w', n)
        → written w' ≡ written w ++ bytes
    unfolding rdb_write_raw
    written_raw {w'} {n} h =
        let (r, e, k) = >>=-eq-some (rio_write w bytes) _ h in
        let same : r ≡ w' = cc in api.written-rio_write w bytes (e ∙ ap some same)

  -- A byte of each type takes its branch.
  module _ (b : ℕ) (r : Rio) where
    typed_6 : b / 64 ≡ bit6 → load_len_typed api enc b r ≡ some ((false, b % 64), r)
    unfolding load_len_typed
    typed_6 h =
        let e : b / 64 % 4 ≡ bit6 = omega (arith, enc.bit6_small) in
        rw e (ground (arith, enc.bit6_ne_encval))

    typed_14 :
        b / 64 ≡ bit14
        → load_len_typed api enc b r
          ≡ (rio_read r 1 >>= λ got. some ((false, b % 64 * 256 + first_byte api got.0), got.1))
    unfolding load_len_typed
    typed_14 h =
        let e : b / 64 % 4 ≡ bit14 = omega (arith, enc.bit14_small) in
        rw e (ground (arith, enc.bit14_ne_encval, enc.bit6_ne_bit14))

  typed_32 :
      (r : Rio)
      → load_len_typed api enc bit32 r
        ≡ (rio_read r 4 >>= λ got. some ((false, of_bytes 0 got.0), got.1))
  unfolding load_len_typed
  typed_32 r =
      let e : bit32 / 64 % 4 ≡ bit32 / 64 = omega (arith, enc.bit32_small) in
      rw e (ground (arith, enc.bit32_apart))

  typed_64 :
      (r : Rio)
      → load_len_typed api enc bit64 r
        ≡ (rio_read r 8 >>= λ got. some ((false, of_bytes 0 got.0), got.1))
  unfolding load_len_typed
  typed_64 r =
      let e : bit64 / 64 % 4 ≡ bit64 / 64 = omega (arith, enc.bit64_small) in
      rw e (ground (arith, enc.bit64_apart, enc.bit32_ne_bit64))

  -- A first byte is read, and the rest decoded.
  pub first_read :
      (b : ℕ) (rest : List ℕ) (r : Rio)
      → unread r ≡ b ∷ rest
      → (r' : Rio) × (rdb_load_len_by_ref api enc r ≡ load_len_typed api enc b r')
        × (unread r' ≡ rest)
  unfolding rdb_load_len_by_ref
  first_read b rest r u =
      let (r', run, left) = api.rio_read-unread r (b ∷ []) rest u in (r', >>=-some _ run refl, left)

  reads_6 : (len b : ℕ) → len < 64 → b ≡ (len % 256 + bit6 * 64) % 256 → ReadsBack (b ∷ []) len
  reads_6 len b h e r rest u =
      let (r', run, left) = first_read b rest r u in
      let type : b / 64 ≡ bit6 = omega (arith, enc.bit6_small) in
      let low : b % 64 ≡ len = omega (arith, enc.bit6_small) in
      (r', run ∙ typed_6 b r' type ∙ ap (λ n. some ((false, n), r')) low, left)

  reads_14 :
      (len b c : ℕ)
      → len < 2 ^ 14
      → b ≡ (len / 256 % 256 + bit14 * 64) % 256
      → c ≡ len % 256
      → ReadsBack (b ∷ c ∷ []) len
  reads_14 len b c h e k r rest u =
      let (r', run, left) = first_read b (c ∷ rest) r u in
      let (r'', run', left') = api.rio_read-unread r' (c ∷ []) rest left in
      let type : b / 64 ≡ bit14 = omega (arith, enc.bit14_small) in
      let low : b % 64 * 256 + c ≡ len = omega (arith, enc.bit14_small) in
      (
        r'',
        run ∙ typed_14 b r' type ∙ >>=-some _ run' (ap (λ n. some ((false, n), r'')) low),
        left',
      )

  reads_32 : (len : ℕ) → len < 2 ^ 32 → ReadsBack (bit32 ∷ bytes4 len) len
  reads_32 len h r rest u =
      let (r', run, left) = first_read bit32 (bytes4 len ++ rest) r u in
      let (r'', run', left') = api.rio_read-unread r' (bytes4 len) rest left in
      let same : of_bytes 0 (bytes4 len) ≡ len = omega arith in
      (r'', run ∙ typed_32 r' ∙ >>=-some _ run' (ap (λ n. some ((false, n), r'')) same), left')

  reads_64 : (len : ℕ) → len < 2 ^ 64 → ReadsBack (bit64 ∷ bytes8 len) len
  reads_64 len h r rest u =
      let (r', run, left) = first_read bit64 (bytes8 len ++ rest) r u in
      let (r'', run', left') = api.rio_read-unread r' (bytes8 len) rest left in
      let same : of_bytes 0 (bytes8 len) ≡ len = omega arith in
      (r'', run ∙ typed_64 r' ∙ >>=-some _ run' (ap (λ n. some ((false, n), r'')) same), left')

  -- What is claimed of a successful save.
  abbrev pub Saved : Rio → ℕ → Rio → ℕ → Type 0
  Saved w len w' n =
      (bytes : List ℕ) × (written w' ≡ written w ++ bytes)
      × (n ≡ length bytes)
      × ReadsBack bytes len

  -- One write.
  Saved-once :
      (w : Rio) (len : ℕ) (bytes : List ℕ) (size : ℕ)
      → size ≡ length bytes
      → ReadsBack bytes len
      → {w' : Rio} {n : ℕ} → (rdb_write_raw api w bytes >>= with_size api size) ≡ some (w', n)
      → Saved w len w' n
  Saved-once w len bytes size l back {w'} {n} h =
      let (out, e, k) = >>=-eq-some (rdb_write_raw api w bytes) _ h in
      let same : out.0 ≡ w' = cc in
      let count : size ≡ n = cc in
      (bytes, ap written (sym same) ∙ written_raw w bytes e, sym count ∙ l, back)

  -- Two writes.
  Saved-twice :
      (w : Rio) (len : ℕ) (b : ℕ) (bytes : List ℕ) (size : ℕ)
      → size ≡ length (b ∷ bytes)
      → ReadsBack (b ∷ bytes) len
      → {w' : Rio} {n : ℕ}
      → (rdb_write_raw api w (b ∷ []) >>= λ out.
          (rdb_write_raw api out.0 bytes >>= with_size api size))
        ≡ some (w', n)
      → Saved w len w' n
  Saved-twice w len b bytes size l back {w'} {n} h =
      let (out, e, k) = >>=-eq-some (rdb_write_raw api w (b ∷ [])) _ h in
      let (out', e', k') = >>=-eq-some (rdb_write_raw api out.0 bytes) _ k in
      let same : out'.0 ≡ w' = cc in
      let count : size ≡ n = cc in
      (
        b ∷ bytes,
        ap written (sym same)
            ∙ written_raw out.0 bytes e'
            ∙ ap (λ l. l ++ bytes) (written_raw w (b ∷ []) e)
            ∙ append_assoc (written w) (b ∷ []) bytes,
        sym count ∙ l,
        back,
      )

  -- A length that `rdbSaveLen` has saved can be read back: it has appended as many bytes to the
  -- stream as it returns, and `rdbLoadLenByRef`, on a stream that begins with these bytes,
  -- returns the length, not marked as encoded, and leaves what follows them. All four formats.
  pub rdb_load_len_by_ref-rdb_save_len :
      (w : Rio) (len : ℕ) {w' : Rio} {n : ℕ}
      → len < 2 ^ 64
      → rdb_save_len api enc w len ≡ some (w', n)
      → Saved w len w' n
  unfolding rdb_save_len
  rdb_load_len_by_ref-rdb_save_len w len h e = elim (Bool-cases (ltb len (2 ^ 6))) [
    | inl small ↦ Saved-once w len _ 1 refl (reads_6 len _ (ltb→lt _ _ small) refl) (rw small at e)
    | inr more ↦ elim (Bool-cases (ltb len (2 ^ 14))) [
      | inl middle ↦
          Saved-once w len _ 2 refl (reads_14 len _ _ (ltb→lt _ _ middle) refl refl)
            (rw (more, middle) at e)
      | inr large ↦ elim (Bool-cases (leb len (2 ^ 32 - 1))) [
        | inl word ↦
            Saved-twice w len bit32 (bytes4 len) 5 refl
              (reads_32 len (omega (arith, leb→le _ _ word))) (rw (more, large, word) at e)
        | inr long ↦
            Saved-twice w len bit64 (bytes8 len) 9 refl (reads_64 len h)
              (rw (more, large, long) at e)
      ]
    ]
  ]
