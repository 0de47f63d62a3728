-- ===== src/Config/Numeric.antt =====
-- The bounds of numeric parameters, and what CONFIG SET stores (config.c).
use red_opt.Base.{ℕ, ◌-◌, ◌%◌, ◌^◌, ◌≤◌, ◌<◌, ◌≡◌, ◌≢◌, refl, sym, ap, ◌∙◌, List}
use red_opt.Base.{Bool, true, false, ◌&&◌, some, >>=-eq-some}
use red_opt.Base.{
  ℤ, pos, negsuc, ltb_ℤ, ◌≤ℤ◌, eq_ℤ, eq_ℤ_iff, signed, bits64, IsLong, Bool-cases, inl, inr, arith,
}
use mathlib.Core.Path.{subst}
use red_opt.Object.Strings.{Numbers}
use red_opt.Config.{
  NumericType, type_int, type_uint, type_long, type_ulong, type_long_long, type_ulong_long,
  type_size_t, type_ssize_t, type_off_t, type_time_t,
}
use red_opt.Config.{NumericConfig, Parsers, is_unsigned, stored, numeric_boundary_check}
use red_opt.Config.{numeric_parse_string, numeric_config_set}
use red_opt.Config.Parse.{parse-IsLong}

-- The bounds are numbers of the type.
abbrev pub FitsType : NumericType → ℤ → ℤ → Type 0
FitsType type_int lo hi = (negsuc (2 ^ 31 - 1) ≤ℤ lo) × (hi ≤ℤ pos (2 ^ 31 - 1))
FitsType type_uint lo hi = (pos 0 ≤ℤ hi) × (hi ≤ℤ pos (2 ^ 32 - 1))
FitsType type_long lo hi = IsLong lo × IsLong hi
FitsType type_ulong lo hi = IsLong lo × IsLong hi
FitsType type_long_long lo hi = IsLong lo × IsLong hi
FitsType type_ulong_long lo hi = IsLong lo × IsLong hi
FitsType type_size_t lo hi = IsLong lo × IsLong hi
FitsType type_ssize_t lo hi = IsLong lo × IsLong hi
FitsType type_off_t lo hi = IsLong lo × IsLong hi
FitsType type_time_t lo hi = IsLong lo × IsLong hi

-- For an unsigned type the bounds are those of the patterns of 64 bits; for a signed one a
-- percentage, which is held as a negative number, has no upper bound.
abbrev pub InBounds : NumericConfig → ℤ → Type 0
InBounds config v =
    (is_unsigned config.numeric_type ≡ true
      → (bits64 config.lower_bound ≤ bits64 v) × (bits64 v ≤ bits64 config.upper_bound))
    × (is_unsigned config.numeric_type ≡ false
        → (config.lower_bound ≤ℤ v)
          × ((config.flags.percent && ltb_ℤ v (pos 0)) ≡ false → v ≤ℤ config.upper_bound))

check-InBounds :
    (config : NumericConfig) (v : ℤ) → numeric_boundary_check config v ≡ true → InBounds config v
unfolding numeric_boundary_check
check-InBounds config v h = (λ u. ground arith, λ u. ground arith)

kept_long : (v : ℤ) → IsLong v → signed (2 ^ 63) (bits64 v) ≡ v
kept_long v h = ground arith

kept_int :
    (v : ℤ)
    → negsuc (2 ^ 31 - 1) ≤ℤ v
    → v ≤ℤ pos (2 ^ 31 - 1)
    → signed (2 ^ 31) (bits64 v % 2 ^ 32) ≡ v
kept_int v h k = ground arith

kept_uint : (v : ℤ) → IsLong v → bits64 v < 2 ^ 32 → pos (bits64 v % 2 ^ 32) ≡ v
kept_uint v h k = ground arith

-- A number within the bounds is stored as it is.
stored_same :
    (t : NumericType) (lo hi v : ℤ) (percent : Bool)
    → FitsType t lo hi
    → IsLong v
    → (is_unsigned t ≡ true → (bits64 lo ≤ bits64 v) × (bits64 v ≤ bits64 hi))
    → (is_unsigned t ≡ false → (lo ≤ℤ v) × ((percent && ltb_ℤ v (pos 0)) ≡ false → v ≤ℤ hi))
    → stored t v ≡ v
stored_same type_int lo hi v percent f long u k =
    let (above, below) = k refl in
    elim (Bool-cases (percent && ltb_ℤ v (pos 0))) [
      | inr plain ↦ kept_int v (ground (arith, above)) (ground (arith, below plain))
      | inl fraction ↦ kept_int v (ground (arith, above)) (ground (arith, fraction))
    ]
stored_same type_uint lo hi v percent f long u k =
    let (above, below) = u refl in kept_uint v long (ground (arith, below))
stored_same type_long lo hi v percent f long u k = refl
stored_same type_ulong lo hi v percent f long u k = kept_long v long
stored_same type_long_long lo hi v percent f long u k = refl
stored_same type_ulong_long lo hi v percent f long u k = kept_long v long
stored_same type_size_t lo hi v percent f long u k = kept_long v long
stored_same type_ssize_t lo hi v percent f long u k = refl
stored_same type_off_t lo hi v percent f long u k = refl
stored_same type_time_t lo hi v percent f long u k = refl

module _ (num : Numbers) (lib : Parsers) where
  -- CONFIG SET of a numeric parameter, whose bounds are numbers of its type: where it succeeds, the
  -- value it has read from the text is within the bounds, as they are taken for the type, and is
  -- valid; it is stored as it is, whatever the width of the type, and nothing else of the parameter
  -- changes. The result is 1 where the value is another one.
  pub numeric_config_set-InBounds :
      (is_valid : ℤ → Bool) (config : NumericConfig) (value : List ℕ) {code : ℕ}
      {config' : NumericConfig}
      → FitsType config.numeric_type config.lower_bound config.upper_bound
      → numeric_config_set num lib is_valid config value ≡ some (code, config')
      → InBounds config config'.value
        × (numeric_parse_string num lib config value ≡ some config'.value)
        × (is_valid config'.value ≡ true)
        × (config' ≡ record config { value = config'.value })
        × (config'.value ≢ config.value → code ≡ 1)
  unfolding numeric_config_set
  numeric_config_set-InBounds is_valid config value {code} {config'} fits e =
      let (v, parsed, k) = >>=-eq-some (numeric_parse_string num lib config value) _ e in
      elim (Bool-cases (numeric_boundary_check config v)) [
        | inr outside ↦ let k1 = simp outside at k in absurd cc
        | inl within ↦ elim (Bool-cases (is_valid v)) [
          | inr invalid ↦ let k1 = simp (within, invalid) at k in absurd cc
          | inl valid ↦
              let bounds = check-InBounds config v within in
              elim (Bool-cases (eq_ℤ config.value v)) [
                | inl same ↦
                    let k1 = simp (within, valid, same) at k in
                    let same_v : config.value ≡ v = (eq_ℤ_iff config.value v).0 same in
                    let same_config : config ≡ config' = cc in
                    settled v bounds parsed valid
                      (sym same_config ∙ ap (λ x. record config { value = x }) same_v)
                      (λ ne. absurd (ne (ap (λ x. x.value) (sym same_config))))
                | inr other ↦
                    let k1 = simp (within, valid, other) at k in
                    let v_stored : stored config.numeric_type v ≡ v =
                      stored_same config.numeric_type config.lower_bound config.upper_bound v
                        config.flags.percent fits (parse-IsLong num lib config value parsed)
                        bounds.0 bounds.1 in
                    let same_config : record config { value = stored config.numeric_type v }
                        ≡ config' =
                      cc in
                    let one : 1 ≡ code = cc in
                    settled v bounds parsed valid
                      (sym same_config ∙ ap (λ x. record config { value = x }) v_stored)
                      (λ ne. sym one)
              ]
        ]
      ]
    where
      settled :
          (v : ℤ)
          → InBounds config v
          → numeric_parse_string num lib config value ≡ some v
          → is_valid v ≡ true
          → config' ≡ record config { value = v }
          → (config'.value ≢ config.value → code ≡ 1)
          → InBounds config config'.value
            × (numeric_parse_string num lib config value ≡ some config'.value)
            × (is_valid config'.value ≡ true)
            × (config' ≡ record config { value = config'.value })
            × (config'.value ≢ config.value → code ≡ 1)
      settled v bounds parsed valid same changed =
          let value_same : config'.value ≡ v = ap (λ x. x.value) same in
          (
            subst (InBounds config) (sym value_same) bounds,
            parsed ∙ ap some (sym value_same),
            ap is_valid value_same ∙ valid,
            same ∙ ap (λ x. record config { value = x }) (sym value_same),
            changed,
          )
