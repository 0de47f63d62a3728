-- ===== src/Config/RoundTrip.antt =====
-- CONFIG GET after CONFIG SET of a numeric parameter (config.c).
use red_opt.Base.{ℕ, zero, suc, ◌≡◌, ◌≢◌, refl, ap, ◌∙◌, List, [], ◌∷◌, ◌++◌}
use red_opt.Base.{Bool, true, false, ◌||◌, none, some}
use red_opt.Base.{ℤ, pos, negsuc, ltb_ℤ, inl, inr, arith}
use red_opt.Object.Strings.{Numbers}
use red_opt.Config.{NumericConfig, Parsers, percentage, percent_sign, negated}
use red_opt.Config.{numeric_config_set, numeric_config_get}
use red_opt.Config.Parse.{percentage-append, parse_percent-found, parse-cases}
use red_opt.Config.Numeric.{FitsType, numeric_config_set-InBounds}

module _ (num : Numbers) (lib : Parsers) where
  -- A percentage that is not zero is printed as it was read.
  prints_percent :
      (value ds : List ℕ) (res : ℤ)
      → percentage value ≡ some ds
      → num.string2ll ds ≡ some res
      → ltb_ℤ res (pos 0) ≡ false
      → negated res ≢ pos 0
      → (ltb_ℤ (negated res) (pos 0) ≡ true)
        × (num.ll2string (negated (negated res)) ++ (percent_sign ∷ []) ≡ value)
  prints_percent value ds (pos zero) e1 e2 plus ne = absurd (ne refl)
  prints_percent value ds (pos (suc n)) e1 e2 plus ne = (
    ground arith,
    ap (λ l. l ++ (percent_sign ∷ [])) (num.ll2string-string2ll ds (pos (suc n)) e2)
        ∙ percentage-append value e1,
  )
  prints_percent value ds (negsuc n) e1 e2 plus ne = absurd (ground arith)

  get_percent :
      (config : NumericConfig)
      → config.flags.percent ≡ true
      → ltb_ℤ config.value (pos 0) ≡ true
      → numeric_config_get num lib config
        ≡ num.ll2string (negated config.value) ++ (percent_sign ∷ [])
  unfolding numeric_config_get
  get_percent config percent minus = rw (percent, minus, numeric_config_get) refl

  get_plain :
      (config : NumericConfig)
      → (config.flags.memory || (config.flags.percent || config.flags.octal)) ≡ false
      → numeric_config_get num lib config ≡ num.ll2string config.value
  unfolding numeric_config_get
  get_plain config plain =
      let memory : config.flags.memory ≡ false = ground arith in
      let percent : config.flags.percent ≡ false = ground arith in
      let octal : config.flags.octal ≡ false = ground arith in
      rw (memory, percent, octal, numeric_config_get) refl

  -- What CONFIG SET has been given for a numeric parameter, a number or a percentage other than
  -- zero, is what CONFIG GET prints afterwards. The parameter is not octal and the text, if the
  -- parameter may be an amount of memory, is none; its bounds are numbers of its type.
  pub numeric_config_get-numeric_config_set :
      (is_valid : ℤ → Bool) (config : NumericConfig) (value : List ℕ) {code : ℕ}
      {config' : NumericConfig}
      → FitsType config.numeric_type config.lower_bound config.upper_bound
      → config.flags.octal ≡ false
      → (config.flags.memory ≡ true → lib.memtoull value ≡ none)
      → config'.value ≢ pos 0
      → numeric_config_set num lib is_valid config value ≡ some (code, config')
      → numeric_config_get num lib config' ≡ value
  numeric_config_get-numeric_config_set is_valid config value {code} {config'} fits o m ne e =
      let (bounds, parsed, valid, same, changed) =
        numeric_config_set-InBounds num lib is_valid config value fits e in
      let flags : config'.flags ≡ config.flags = ap (λ x. x.flags) same in
      elim (parse-cases num lib config value parsed) [
        | inl (memory, res, found, is) ↦ let unread = m memory in absurd cc
        | inr (inl (percent, found)) ↦
            let (ds, res, e1, e2, plus, v) = parse_percent-found num lib value found in
            let (minus, prints) = prints_percent value ds res e1 e2 plus (λ z. ne (v ∙ z)) in
            get_percent config' (ap (λ f. f.percent) flags ∙ percent)
              (ap (λ x. ltb_ℤ x (pos 0)) v ∙ minus)
            ∙ ap (λ x. num.ll2string (negated x) ++ (percent_sign ∷ [])) v
            ∙ prints
        | inr (inr (inl (octal, found))) ↦ absurd cc
        | inr (inr (inr (plain, found))) ↦
            get_plain config' (ap (λ f. f.memory || (f.percent || f.octal)) flags ∙ plain)
            ∙ num.ll2string-string2ll value config'.value found
      ]
