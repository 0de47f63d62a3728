-- ===== src/Object/Strings/Compare.antt =====
-- The comparison of string objects (object.c) against the equality of their bytes.
use red_opt.Base.{ℕ, ◌<◌, ◌^◌, ◌≡◌, ◌↔◌, refl, sym, ap, ◌∙◌, List, [], ◌∷◌, true, false, some}
use red_opt.Base.{length, ltb, ◌==◌, ◌&&◌, Bool-cases, inl, inr, arith}
use red_opt.Base.{ℤ, pos, eq_ℤ, eq_ℤ_iff}
use red_opt.Object.{Robj, number}
use red_opt.Object.Strings.{Numbers, encoding_int, text, memcmp, length_difference}
use red_opt.Object.Strings.{
  compare_string_objects, compare_string_objects_with_flags, equal_string_objects, IsString,
  of_chars, of_number,
}

memcmp_self : (a : List ℕ) → memcmp a a ≡ pos 0
unfolding memcmp
memcmp_self [] = refl
memcmp_self (x ∷ a) = ground (arith, memcmp_self a)

-- Two strings of one length that the comparison cannot tell apart are the same.
memcmp-eq : (a b : List ℕ) → memcmp a b ≡ pos 0 → length a ≡ length b → a ≡ b
unfolding memcmp
memcmp-eq [] [] h l = refl
memcmp-eq [] (y ∷ b) h l = absurd (omega arith)
memcmp-eq (x ∷ a) [] h l = absurd (omega arith)
memcmp-eq (x ∷ a) (y ∷ b) h l = elim (Bool-cases (x == y)) [
  | inl same ↦ ground (arith, memcmp-eq a b)
  | inr other ↦ elim (Bool-cases (ltb x y)) [ inl below ↦ ground arith | inr above ↦ ground arith ]
]

same_length :
    (a b : List ℕ)
    → length a < 2 ^ 31
    → length b < 2 ^ 31
    → length_difference a b ≡ pos 0
    → length a ≡ length b
same_length a b h k e = ground arith

module _ (num : Numbers) where
  no_difference : (a : List ℕ) → length_difference a a ≡ pos 0
  no_difference a = ground arith

  -- The comparison in binary is 0 for the same bytes, and only for them.
  compare-zero :
      (a b : Robj)
      → length (text num a) < 2 ^ 31
      → length (text num b) < 2 ^ 31
      → (compare_string_objects num a b ≡ pos 0) ↔ (text num a ≡ text num b)
  unfolding compare_string_objects compare_string_objects_with_flags
  compare-zero a b h k = elim (Bool-cases (eq_ℤ (memcmp (text num a) (text num b)) (pos 0))) [
    | inl zero_cmp ↦
        let cmp = (eq_ℤ_iff (memcmp (text num a) (text num b)) (pos 0)).0 zero_cmp in
        rw zero_cmp (
          λ e. memcmp-eq (text num a) (text num b) cmp (same_length _ _ h k e),
          λ e. rw e (no_difference (text num b)),
        )
    | inr differ ↦ rw differ (
      λ e. absurd (cc ((eq_ℤ_iff (memcmp (text num a) (text num b)) (pos 0)).1 e)),
      λ e.
          let same : memcmp (text num a) (text num b) ≡ pos 0 =
            ap (memcmp (text num a)) (sym e) ∙ memcmp_self (text num a) in
          absurd (cc ((eq_ℤ_iff (memcmp (text num a) (text num b)) (pos 0)).1 same)),
    )
  ]

  -- Both integer-encoded: the stored longs are compared.
  equal-numbers :
      (a b : Robj) (v w : ℤ)
      → a.encoding ≡ encoding_int
      → b.encoding ≡ encoding_int
      → a.ptr ≡ number v
      → b.ptr ≡ number w
      → equal_string_objects num a b ≡ eq_ℤ v w
  unfolding equal_string_objects
  equal-numbers a b v w ea eb pa pb = rw (ea, eb, pa, pb, equal_string_objects) refl

  -- One at least is a string of bytes.
  equal-compared :
      (a b : Robj)
      → (a.encoding == encoding_int && b.encoding == encoding_int) ≡ false
      → equal_string_objects num a b ≡ eq_ℤ (compare_string_objects num a b) (pos 0)
  unfolding equal_string_objects
  equal-compared a b e = rw (e, equal_string_objects) refl

  compared_iff :
      (a b : Robj)
      → (a.encoding == encoding_int && b.encoding == encoding_int) ≡ false
      → length (text num a) < 2 ^ 31
      → length (text num b) < 2 ^ 31
      → (equal_string_objects num a b ≡ true) ↔ (text num a ≡ text num b)
  compared_iff a b e h k =
      let (to, from) = compare-zero a b h k in
      let (here, back) = eq_ℤ_iff (compare_string_objects num a b) (pos 0) in
      let same = equal-compared a b e in (λ z. to (here (sym same ∙ z)), λ z. same ∙ back (from z))

  -- Two string objects, each of them encoded in any way, are equal for `equalStringObjects` exactly
  -- if they stand for the same bytes, where both are shorter than 2^31.
  pub equal_string_objects_iff :
      (a b : Robj)
      → IsString a
      → IsString b
      → length (text num a) < 2 ^ 31
      → length (text num b) < 2 ^ 31
      → (equal_string_objects num a b ≡ true) ↔ (text num a ≡ text num b)
  equal_string_objects_iff a b (of_number _ v ka ea pa la) (of_number _ w kb eb pb lb) h k =
      let same = equal-numbers a b v w ea eb pa pb in
      let (here, back) = eq_ℤ_iff v w in
      (
        λ z. rw (pa, pb) (ap num.ll2string (here (sym same ∙ z))),
        λ z.
            let texts : num.ll2string v ≡ num.ll2string w = rw (pa, pb) at z in
            let values : some v ≡ some w =
              sym (num.string2ll-ll2string v la)
              ∙ ap num.string2ll texts
              ∙ num.string2ll-ll2string w lb in
            same ∙ back (cc),
      )
  equal_string_objects_iff a b (of_chars _ s ka ea pa) is h k = compared_iff a b (ground arith) h k
  equal_string_objects_iff a b (of_number _ v ka ea pa la) (of_chars _ s kb eb pb) h k =
      compared_iff a b (ground arith) h k
