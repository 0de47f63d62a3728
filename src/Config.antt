-- ===== src/Config.antt =====
-- The numeric parameters of config.c: CONFIG SET and CONFIG GET of one of them. `memtoull`,
-- `strtoll` and the printing of unsigned numbers are not part of the repository and are parameters.
-- Parameters of modules are left out.
pub mod Parse
pub mod Numeric
pub mod RoundTrip
use red_opt.Base.{ℕ, zero, suc, ◌+◌, ◌-◌, ◌*◌, ◌%◌, ◌^◌, ◌≤◌, ◌<◌, ◌≡◌, List, [], ◌∷◌, ◌++◌}
use red_opt.Base.{
  Bool, true, false, not, ◌&&◌, ◌||◌, Option, none, some, ◌>>=◌, length, ltb, ◌==◌, if◌then◌else◌,
}
use red_opt.Base.{ℤ, pos, negsuc, pos_part, neg_part, ltb_ℤ, eq_ℤ, signed, bits64, IsLong}
use red_opt.Object.Strings.{Numbers}

pub data NumericType : Type 0 where
  type_int : NumericType
  type_uint : NumericType
  type_long : NumericType
  type_ulong : NumericType
  type_long_long : NumericType
  type_ulong_long : NumericType
  type_size_t : NumericType
  type_ssize_t : NumericType
  type_off_t : NumericType
  type_time_t : NumericType

-- MEMORY_CONFIG, PERCENT_CONFIG and OCTAL_CONFIG.
pub record NumericFlags : Type 0 where
  pub memory : Bool
  pub percent : Bool
  pub octal : Bool

-- `value` is what the variable holds, as a `long long` that is read from it.
pub record NumericConfig : Type 0 where
  pub numeric_type : NumericType
  pub flags : NumericFlags
  pub lower_bound : ℤ
  pub upper_bound : ℤ
  pub volatile : Bool
  pub value : ℤ

-- The functions of util.c and of the C library; `none` is an error.
pub record Parsers : Type 0 where
  pub memtoull : List ℕ → Option ℕ
  pub octal : List ℕ → Option ℤ
  pub ull2string : ℕ → List ℕ
  pub print_octal : ℕ → List ℕ
  pub octal-IsLong : (s : List ℕ) (v : ℤ) → octal s ≡ some v → IsLong v

abbrev pub percent_sign : ℕ
percent_sign = 37

-- The types that the boundary check takes for unsigned; `unsigned long` is not one of them.
abbrev pub is_unsigned : NumericType → Bool
is_unsigned type_int = false
is_unsigned type_uint = true
is_unsigned type_long = false
is_unsigned type_ulong = false
is_unsigned type_long_long = false
is_unsigned type_ulong_long = true
is_unsigned type_size_t = true
is_unsigned type_ssize_t = false
is_unsigned type_off_t = false
is_unsigned type_time_t = false

-- `setNumericType`, and `GET_NUMERIC_TYPE` of what it has stored: only `int` and `unsigned int` are
-- narrower than a `long long`.
abbrev pub stored : NumericType → ℤ → ℤ
stored type_int v = signed (2 ^ 31) (bits64 v % 2 ^ 32)
stored type_uint v = pos (bits64 v % 2 ^ 32)
stored type_long v = v
stored type_ulong v = signed (2 ^ 63) (bits64 v)
stored type_long_long v = v
stored type_ulong_long v = signed (2 ^ 63) (bits64 v)
stored type_size_t v = signed (2 ^ 63) (bits64 v)
stored type_ssize_t v = v
stored type_off_t v = v
stored type_time_t v = v

unfoldable pub numeric_boundary_check : NumericConfig → ℤ → Bool
numeric_boundary_check config ll =
    if is_unsigned config.numeric_type
    then (if ltb (bits64 config.upper_bound) (bits64 ll)
          || ltb (bits64 ll) (bits64 config.lower_bound)
        then false
        else true)
    else if config.flags.percent && ltb_ℤ ll (pos 0)
    then (if ltb_ℤ ll config.lower_bound then false else true)
    else if ltb_ℤ config.upper_bound ll || ltb_ℤ ll config.lower_bound
    then false
    else true

-- A string less a `%` at its end, if it has one and something before it.
unfoldable pub percentage : List ℕ → Option (List ℕ)
percentage [] = none
percentage (a ∷ []) = none
percentage (a ∷ (b ∷ [])) = if b == percent_sign then some (a ∷ []) else none
percentage (a ∷ (b ∷ (c ∷ s))) = percentage (b ∷ (c ∷ s)) >>= λ rest. some (a ∷ rest)

-- `-*res`
abbrev pub negated : ℤ → ℤ
negated (pos zero) = pos 0
negated (pos (suc n)) = negsuc n
negated (negsuc n) = pos (suc n)

abbrev pub or_else : {A : Type 0} → Option A → Option A → Option A
or_else none b = b
or_else (some a) b = some a

module _ (num : Numbers) (lib : Parsers) where
  open num use {string2ll, ll2string}

  abbrev pub parse_percent : List ℕ → Option ℤ
  parse_percent value = percentage value >>= string2ll >>= λ res.
      if ltb_ℤ res (pos 0) then none else some (negated res)

  -- The ways that the flags allow, in the order they are tried.
  abbrev pub as_memory : NumericConfig → List ℕ → Option ℤ
  as_memory config value =
      if config.flags.memory
      then (lib.memtoull value >>= λ res. some (signed (2 ^ 63) (res % 2 ^ 64)))
      else none

  abbrev pub as_percent : NumericConfig → List ℕ → Option ℤ
  as_percent config value = if config.flags.percent then parse_percent value else none

  abbrev pub as_octal : NumericConfig → List ℕ → Option ℤ
  as_octal config value = if config.flags.octal then lib.octal value else none

  abbrev pub as_integer : NumericConfig → List ℕ → Option ℤ
  as_integer config value =
      if not (config.flags.memory || (config.flags.percent || config.flags.octal))
      then string2ll value
      else none

  -- `none` is an error.
  unfoldable pub numeric_parse_string : NumericConfig → List ℕ → Option ℤ
  numeric_parse_string config value = or_else (as_memory config value) (
      or_else (as_percent config value) (or_else (as_octal config value) (as_integer config value)))

  -- `none` is the result 0, with an error; otherwise the result, 1 or 2, with the parameter.
  -- `is_valid` stands for `is_valid_fn`, or for its absence.
  unfoldable pub numeric_config_set :
      (ℤ → Bool) → NumericConfig → List ℕ → Option (ℕ × NumericConfig)
  numeric_config_set is_valid config value = numeric_parse_string config value >>= λ ll.
      if not (numeric_boundary_check config ll)
      then none
      else if not (is_valid ll)
      then none
      else if not (eq_ℤ config.value ll)
      then some (1, record config { value = stored config.numeric_type ll })
      else some (if config.volatile then 1 else 2, config)

  unfoldable pub numeric_config_get : NumericConfig → List ℕ
  numeric_config_get config =
      if config.flags.percent && ltb_ℤ config.value (pos 0)
      then ll2string (negated config.value) ++ (percent_sign ∷ [])
      else if config.flags.memory
      then lib.ull2string (bits64 config.value)
      else if config.flags.octal
      then lib.print_octal (bits64 config.value)
      else ll2string config.value
