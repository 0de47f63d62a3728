-- ===== src/Tests/Configs.antt =====
-- The theorems on numeric parameters at concrete inputs.
use red_opt.Base.{
  ℕ, ◌-◌, ◌^◌, ◌≡◌, ◌≢◌, refl, List, [], ◌∷◌, Bool, true, false, some, ℤ, pos, negsuc, arith, eq_ℤ,
}
use red_opt.Config.{
  type_long, NumericConfig, numeric_boundary_check, numeric_parse_string, numeric_config_set,
  numeric_config_get, percentage,
}
use red_opt.Config.Numeric.{InBounds, numeric_config_set-InBounds}
use red_opt.Config.RoundTrip.{numeric_config_get-numeric_config_set}
use red_opt.Tests.Numbers.{numbers, parsers}

-- At most 100 percent, or an amount of memory.
abbrev clients : NumericConfig
clients = record {
  numeric_type = type_long;
  flags = record { memory = true; percent = true; octal = false };
  lower_bound = negsuc 99;
  upper_bound = pos (2 ^ 63 - 1);
  volatile = false;
  value = pos 0;
}

abbrev any : ℤ → Bool
any v = true

-- 50 percent, which is held as -50.
abbrev half : List ℕ
half = 43 ∷ 50 ∷ 37 ∷ []

abbrev half_clients : NumericConfig
half_clients = record clients { value = negsuc 49 }

half_set : numeric_config_set numbers parsers any clients half ≡ some (1, half_clients)
unfolding numeric_config_set numeric_parse_string numeric_boundary_check percentage eq_ℤ
half_set = refl

numeric_config_set-InBounds_example :
    InBounds clients (negsuc 49)
    × (numeric_parse_string numbers parsers clients half ≡ some (negsuc 49))
    × (true ≡ true)
    × (half_clients ≡ record clients { value = negsuc 49 })
    × (◌≢◌ {A = ℤ} (negsuc 49) (pos 0) → ◌≡◌ {A = ℕ} 1 1)
numeric_config_set-InBounds_example =
    numeric_config_set-InBounds numbers parsers any clients half
      ((omega arith, omega arith), (omega arith, omega arith)) half_set

numeric_config_get-numeric_config_set_example :
    numeric_config_get numbers parsers half_clients ≡ half
numeric_config_get-numeric_config_set_example =
    numeric_config_get-numeric_config_set numbers parsers any clients half
      ((omega arith, omega arith), (omega arith, omega arith)) refl (λ m. refl) (λ e. cc) half_set
