-- ===== src/Double.antt =====
-- The C type `double`, which the language of this development does not have: its operations as a
-- parameter, with the laws of IEEE 754 that the scoring code relies on. A value is a number (not a
-- NaN) exactly where it is at most itself.
use red_opt.Base.{ℕ, ◌-◌, ◌^◌, ◌≤◌, ◌<◌, ◌≡◌, Bool, true, false}

pub record Double : Type 1 where
  pub F : Type 0
  -- the conversion of an integer, and the literal m · 10⁻ᵉ
  pub of_ℕ : ℕ → F
  pub lit : ℕ → ℕ → F
  pub add : F → F → F
  pub sub : F → F → F
  pub mul : F → F → F
  pub div : F → F → F
  pub neg : F → F
  pub sqrt : F → F
  pub fmax : F → F → F
  pub fmin : F → F → F
  pub lt : F → F → Bool
  pub le : F → F → Bool
  -- conversion keeps the order (round to nearest is monotone)
  pub le-of_ℕ : (a b : ℕ) → a ≤ b → le (of_ℕ a) (of_ℕ b) ≡ true
  -- the difference of small integers is exact
  pub sub_of_ℕ : (a b : ℕ) → b ≤ a → a < 2 ^ 53 → sub (of_ℕ a) (of_ℕ b) ≡ of_ℕ (a - b)
  pub sub_below : (a b : ℕ) → a < b → b < 2 ^ 53 → lt (sub (of_ℕ a) (of_ℕ b)) (of_ℕ 0) ≡ true
  -- comparison
  pub lt_asym : (a b : F) → lt a b ≡ true → lt b a ≡ false
  pub not_lt_trans : (a b c : F) → le b b ≡ true → lt b a ≡ false → lt c b ≡ false → lt c a ≡ false
  pub not_lt_of_le : (a b : F) → le a b ≡ true → lt b a ≡ false
  -- sums and products of values that are at least 0
  pub add_nonneg :
      (a b : F) → le (of_ℕ 0) a ≡ true → le (of_ℕ 0) b ≡ true → le (of_ℕ 0) (add a b) ≡ true
  pub mul_nonneg : (n m e : ℕ) → 0 < m → le (of_ℕ 0) (mul (of_ℕ n) (lit m e)) ≡ true
  pub mul_nonneg_left : (n m e : ℕ) → 0 < m → le (of_ℕ 0) (mul (lit m e) (of_ℕ n)) ≡ true
  pub mul_zero : (m e : ℕ) → mul (of_ℕ 0) (lit m e) ≡ of_ℕ 0
  pub mul_zero_left : (m e : ℕ) → mul (lit m e) (of_ℕ 0) ≡ of_ℕ 0
  pub add_zero : add (of_ℕ 0) (of_ℕ 0) ≡ of_ℕ 0
  -- negation
  pub lt-neg : (a b : F) → lt (neg a) (neg b) ≡ lt b a
  pub neg_number : (a : F) → le (of_ℕ 0) a ≡ true → le (neg a) (neg a) ≡ true
