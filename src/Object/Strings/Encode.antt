-- ===== src/Object/Strings/Encode.antt =====
-- What the encoding of a string object and its decoding keep.
use red_opt.Base.{ℕ, ◌+◌, ◌<◌, ◌≡◌, refl, ◌∙◌, List, true, false, not, Option, none, some}
use red_opt.Base.{
  length, ltb, leb, ◌==◌, if◌then◌else◌, Bool-cases, Option-cases, inl, inr, ◌&&◌, ◌||◌, arith,
}
use red_opt.Base.{ℤ, pos, negsuc, pos_part, IsLong}
use red_opt.Server.{Server}
use red_opt.Object.{
  Robj, chars, number, Garbage, create_object, incr_ref_count, decr_ref_count, static_refcount,
}
use red_opt.Object.Strings.{
  obj_string, encoding_raw, encoding_int, encoding_embstr, Numbers, SharedObjects,
  sds_encoded_object,
}
use red_opt.Object.Strings.{
  is_small, flag_no_shared_integers, Ll2Strobj, auto, no_shared, create_raw_string_object,
}
use red_opt.Object.Strings.{create_embedded_string_object, create_string_object, create_int_object}
use red_opt.Object.Strings.{
  create_string_object_from_long_long_with_options, create_string_object_from_long_long_for_value,
}
use mathlib.Core.Path.{subst}
use red_opt.Object.Strings.{is_auto, is_no_int_enc, replaced_by}
use red_opt.Object.Strings.{
  try_embed, encode_number, try_object_encoding, get_decoded_object, text, IsString, of_chars,
  of_number,
}

module _ (num : Numbers) where
  -- An object that stands for these bytes.
  unfoldable pub Holds : List ℕ → Robj → Type 0
  Holds s o = IsString o × (text num o ≡ s)

  pub create_string_object-Holds :
      (s : List ℕ) (garbage : Garbage) → Holds s (create_string_object s garbage)
  unfolding create_string_object create_raw_string_object create_embedded_string_object
      create_object Holds
  create_string_object-Holds s garbage = elim (Bool-cases (leb (length s) 44)) [
    | inl short ↦
        rw (short, create_string_object)
          (of_chars (create_embedded_string_object s garbage) s refl refl refl, refl)
    | inr long ↦
        rw (long, create_string_object)
          (of_chars (create_raw_string_object s garbage) s refl refl refl, refl)
  ]

  new_string-encoded :
      (s : List ℕ) (garbage : Garbage) → sds_encoded_object (create_string_object s garbage) ≡ true
  unfolding create_string_object create_raw_string_object create_embedded_string_object
      create_object
  new_string-encoded s garbage = elim (Bool-cases (leb (length s) 44)) [
    | inl short ↦ rw (short, create_string_object) refl
    | inr long ↦ rw (long, create_string_object) refl
  ]

  -- The same, and a string of bytes can be retained once more.
  abbrev pub Kept : List ℕ → Robj → Type 0
  Kept s o = Holds s o × (sds_encoded_object o ≡ true → o.refcount < static_refcount)

  create_embedded-Kept :
      (s : List ℕ) (garbage : Garbage) → Kept s (create_embedded_string_object s garbage)
  unfolding create_embedded_string_object Holds
  create_embedded-Kept s garbage = (
    (of_chars (create_embedded_string_object s garbage) s refl refl refl, refl),
    λ e. omega arith,
  )

  create_int_object-Kept :
      (v : ℤ) (garbage : Garbage) → IsLong v → Kept (num.ll2string v) (create_int_object v garbage)
  unfolding create_object Holds
  create_int_object-Kept v garbage h =
      ((of_number (create_int_object v garbage) v refl refl refl h, refl), λ e. omega arith)

  decode :
      (o : Robj) (garbage : Garbage)
      → IsString o
      → (sds_encoded_object o ≡ true → o.refcount < static_refcount)
      → (decoded : Robj) × (get_decoded_object num o garbage ≡ some decoded)
        × (sds_encoded_object decoded ≡ true)
        × (text num decoded ≡ text num o)
  unfolding get_decoded_object incr_ref_count Holds
  decode o garbage (of_chars _ s is encoded at) count =
      let low : ltb o.refcount static_refcount ≡ true = ground (arith, count encoded) in
      (record o { refcount = o.refcount + 1 }, rw (encoded, low, get_decoded_object), encoded, refl)
  decode o garbage (of_number _ v is int at long) count = (
    create_string_object (num.ll2string v) garbage,
    rw (int, is, at, get_decoded_object),
    new_string-encoded (num.ll2string v) garbage,
    (create_string_object-Holds (num.ll2string v) garbage).1 ∙ rw at refl,
  )

  module _ (shared : SharedObjects) where
    integers-Kept :
        (v : ℤ) → is_small v ≡ true → Kept (num.ll2string v) (shared.integers (pos_part v))
    unfolding Holds
    integers-Kept (pos n) h = (
      (
        of_number (shared.integers n) (pos n) (shared.kind-integers n) (shared.encoding-integers n)
            (shared.ptr-integers n) (ground arith),
        rw (shared.ptr-integers n) refl,
      ),
      λ e. absurd (ground (arith, shared.encoding-integers n)),
    )
    integers-Kept (negsuc n) h = cc

    from_long_long-Kept :
        (v : ℤ) (flag : Ll2Strobj) (garbage : Garbage)
        → IsLong v
        → is_no_int_enc flag ≡ false
        → Kept
            (num.ll2string v)
            (create_string_object_from_long_long_with_options num shared v flag garbage)
    unfolding create_string_object_from_long_long_with_options
    from_long_long-Kept v flag garbage h int = elim (Bool-cases (is_small v && is_auto flag)) [
      | inl small ↦
          rw (small, create_string_object_from_long_long_with_options)
            (integers-Kept v (ground arith))
      | inr large ↦
          rw (large, create_string_object_from_long_long_with_options, int)
            (create_int_object-Kept v garbage h)
    ]

    pub for_value-Kept :
        (s : Server) (v : ℤ) (garbage : Garbage)
        → IsLong v
        → Kept
            (num.ll2string v)
            (create_string_object_from_long_long_for_value num shared s v garbage)
    unfolding create_string_object_from_long_long_for_value
    for_value-Kept s v garbage h =
        elim (Bool-cases (s.maxmemory == 0 || not (flag_no_shared_integers s.maxmemory_policy))) [
          | inl may ↦
              rw (may, create_string_object_from_long_long_for_value)
                (from_long_long-Kept v auto garbage h refl)
          | inr not_now ↦
              rw (not_now, create_string_object_from_long_long_for_value)
                (from_long_long-Kept v no_shared garbage h refl)
        ]

    -- What an attempt at an encoding may leave of the bytes `s`.
    abbrev Encoded : List ℕ → Option Robj → Type 0
    Encoded s out = (o' : Robj) × (out ≡ some o') × Kept s o'

    replaced-Encoded :
        (s : List ℕ) (o new : Robj)
        → o.refcount ≡ 1
        → Kept s new
        → Encoded s (replaced_by num shared o new)
    unfolding decr_ref_count
    replaced-Encoded s o new one kept = (new, rw one, kept)

    module _ (s : Server) (o : Robj) (bytes : List ℕ) (garbage : Garbage) (is : o.kind ≡ obj_string)
        (encoded : sds_encoded_object o ≡ true) (at : o.ptr ≡ chars bytes)
        (one : o.refcount ≡ 1) where
      unchanged : Kept bytes o
      unfolding Holds
      unchanged = ((of_chars o bytes is encoded at, rw at refl), λ e. omega arith)

      embed-Encoded : Encoded bytes (try_embed num shared o bytes garbage)
      unfolding try_embed
      embed-Encoded = elim (Bool-cases (leb (length bytes) 44)) [
        | inr long ↦ rw (long, try_embed) (o, refl, unchanged)
        | inl short ↦ elim (Bool-cases (o.encoding == encoding_embstr)) [
          | inl embedded ↦ rw (short, embedded, try_embed) (o, refl, unchanged)
          | inr raw ↦
              rw (short, raw, try_embed)
                (replaced-Encoded bytes o _ one (create_embedded-Kept bytes garbage))
        ]
      ]

      number-Encoded :
          (v : ℤ)
          → num.string2ll bytes ≡ some v
          → Encoded bytes (encode_number num shared s o v garbage)
      unfolding encode_number Holds
      number-Encoded v e =
          let long = num.string2ll-IsLong bytes v e in
          let same = num.ll2string-string2ll bytes v e in
          elim (Bool-cases (
            (s.maxmemory == 0 || not (flag_no_shared_integers s.maxmemory_policy)) && is_small v)) [
              | inl small ↦
                  rw (small, encode_number)
                    (subst
                      (λ b. Encoded b (replaced_by num shared o (shared.integers (pos_part v))))
                      same (replaced-Encoded _ o _ one (integers-Kept v (ground arith))))
              | inr large ↦ elim (Bool-cases (o.encoding == encoding_raw)) [
                | inl raw ↦
                    rw (large, raw, encode_number)
                      (
                        record o { encoding = encoding_int; ptr = number v },
                        refl,
                        (
                          (
                            of_number (record o { encoding = encoding_int; ptr = number v }) v is
                                refl refl long,
                            same,
                          ),
                          λ z. omega arith,
                        ),
                      )
                | inr embedded ↦
                    rw (large, embedded, encode_number)
                      (subst
                        (λ b. Encoded b (
                          replaced_by num shared o
                            (create_string_object_from_long_long_for_value num shared s v garbage)))
                        same (replaced-Encoded _ o _ one (for_value-Kept s v garbage long)))
              ]
            ]

    -- An object that counts one reference at least, and may be retained once more.
    try-Encoded :
        (s : Server) (o : Robj) (garbage : Garbage)
        → IsString o
        → 0 < o.refcount
        → o.refcount < static_refcount
        → Encoded (text num o) (try_object_encoding num shared s o garbage)
    unfolding try_object_encoding Holds
    try-Encoded s o garbage (of_number _ v is int at long) pos_count count =
        (o, rw (is, int, try_object_encoding), ((of_number o v is int at long, refl), λ e. count))
    try-Encoded s o garbage (of_chars _ bytes is encoded at) pos_count count =
        elim (Bool-cases (ltb 1 o.refcount)) [
          | inl many ↦ (
            o,
            rw (is, encoded, many, try_object_encoding),
            ((of_chars o bytes is encoded at, refl), λ e. count),
          )
          | inr few ↦
              let one : o.refcount ≡ 1 = ground arith in
              elim (Option-cases (if leb (length bytes) 20 then num.string2ll bytes else none)) [
                | inl no_number ↦
                    rw (is, encoded, few, at, no_number, try_object_encoding)
                      (embed-Encoded s o bytes garbage is encoded at one)
                | inr (v, e) ↦
                    let e' : num.string2ll bytes ≡ some v = ground arith in
                    rw (is, encoded, few, at, e, try_object_encoding)
                      (number-Encoded s o bytes garbage is encoded at one v e')
              ]
        ]

    -- A string object, however it is encoded, keeps its bytes when `tryObjectEncoding` encodes it
    -- (where it counts one reference at least, and is not one of the special objects): there is a
    -- result, it is a string object of the same bytes, and `getDecodedObject` gives an object that
    -- holds them as bytes, not as a number.
    pub get_decoded_object-try_object_encoding :
        (s : Server) (o : Robj) (garbage garbage' : Garbage)
        → IsString o
        → 0 < o.refcount
        → o.refcount < static_refcount
        → (o' decoded : Robj) × (try_object_encoding num shared s o garbage ≡ some o')
          × IsString o'
          × (text num o' ≡ text num o)
          × (get_decoded_object num o' garbage' ≡ some decoded)
          × (sds_encoded_object decoded ≡ true)
          × (text num decoded ≡ text num o)
    unfolding Holds
    get_decoded_object-try_object_encoding s o garbage garbage' is p q =
        let (o', run, ((is', same), count)) = try-Encoded s o garbage is p q in
        let (decoded, run', bytes, same') = decode o' garbage' is' count in
        (o', decoded, run, is', same, run', bytes, same' ∙ same)
