-- ===== src/Tests/Doubles.antt =====
-- Numbers with a sign and two decimals, which have the laws that `Double` asks for.
use red_opt.Base.{ℕ, ◌+◌, ◌-◌, ◌*◌, ◌/◌, ◌^◌, ◌≤◌, ◌<◌, ◌≡◌, refl, Bool, true, false, ◌&&◌, ◌||◌}
use red_opt.Base.{ltb, leb, ◌==◌, if◌then◌else◌, arith}
use red_opt.Double.{Double}

-- `plus 150` is 1.50, `minus 150` is -1.50; there are two zeros.
pub data Decimal : Type 0 where
  plus : ℕ → Decimal
  minus : ℕ → Decimal

unfoldable pub less : Decimal → Decimal → Bool
less (plus a) (plus b) = ltb a b
less (plus a) (minus b) = false
less (minus a) (plus b) = ltb 0 a || ltb 0 b
less (minus a) (minus b) = ltb b a

unfoldable pub at_most : Decimal → Decimal → Bool
at_most (plus a) (plus b) = leb a b
at_most (plus a) (minus b) = a == 0 && b == 0
at_most (minus a) (plus b) = true
at_most (minus a) (minus b) = leb b a

unfoldable pub negate : Decimal → Decimal
negate (plus a) = minus a
negate (minus a) = plus a

abbrev difference : ℕ → ℕ → Decimal
difference a b = if leb b a then plus (a - b) else minus (b - a)

unfoldable pub plus_of : Decimal → Decimal → Decimal
plus_of (plus a) (plus b) = plus (a + b)
plus_of (plus a) (minus b) = difference a b
plus_of (minus a) (plus b) = difference b a
plus_of (minus a) (minus b) = minus (a + b)

unfoldable pub times_of : Decimal → Decimal → Decimal
times_of (plus a) (plus b) = plus (a * b / 100)
times_of (plus a) (minus b) = minus (a * b / 100)
times_of (minus a) (plus b) = minus (a * b / 100)
times_of (minus a) (minus b) = plus (a * b / 100)

unfoldable pub over_of : Decimal → Decimal → Decimal
over_of (plus a) (plus b) = plus (a * 100 / b)
over_of (plus a) (minus b) = minus (a * 100 / b)
over_of (minus a) (plus b) = minus (a * 100 / b)
over_of (minus a) (minus b) = plus (a * 100 / b)

abbrev whole : ℕ → Decimal
whole n = plus (n * 100)

abbrev literal : ℕ → ℕ → Decimal
literal m e = plus (m * 100 / 10 ^ e)

pub asym : (a b : Decimal) → less a b ≡ true → less b a ≡ false
unfolding less
asym (plus a) (plus b) h = ground arith
asym (plus a) (minus b) h = ground arith
asym (minus a) (plus b) h = ground arith
asym (minus a) (minus b) h = ground arith

pub not_less_of_at_most : (a b : Decimal) → at_most a b ≡ true → less b a ≡ false
unfolding less at_most
not_less_of_at_most (plus a) (plus b) h = ground arith
not_less_of_at_most (plus a) (minus b) h = ground arith
not_less_of_at_most (minus a) (plus b) h = ground arith
not_less_of_at_most (minus a) (minus b) h = ground arith

pub not_less_trans : (a b c : Decimal) → less b a ≡ false → less c b ≡ false → less c a ≡ false
unfolding less
not_less_trans (plus a) (plus b) (plus c) h k = ground arith
not_less_trans (plus a) (plus b) (minus c) h k = ground arith
not_less_trans (plus a) (minus b) (plus c) h k = ground arith
not_less_trans (plus a) (minus b) (minus c) h k = ground arith
not_less_trans (minus a) (plus b) (plus c) h k = ground arith
not_less_trans (minus a) (plus b) (minus c) h k = ground arith
not_less_trans (minus a) (minus b) (plus c) h k = ground arith
not_less_trans (minus a) (minus b) (minus c) h k = ground arith

pub plus_of_nonneg :
    (a b : Decimal)
    → at_most (plus 0) a ≡ true
    → at_most (plus 0) b ≡ true
    → at_most (plus 0) (plus_of a b) ≡ true
unfolding at_most plus_of
plus_of_nonneg (plus a) (plus b) h k = ground arith
plus_of_nonneg (plus a) (minus b) h k = ground arith
plus_of_nonneg (minus a) (plus b) h k = ground arith
plus_of_nonneg (minus a) (minus b) h k = ground arith

pub less-negate : (a b : Decimal) → less (negate a) (negate b) ≡ less b a
unfolding less negate
less-negate (plus a) (plus b) = refl
less-negate (plus a) (minus b) = ground arith
less-negate (minus a) (plus b) = refl
less-negate (minus a) (minus b) = refl

pub negate_number : (a : Decimal) → at_most (plus 0) a ≡ true → at_most (negate a) (negate a) ≡ true
unfolding at_most negate
negate_number (plus a) h = ground arith
negate_number (minus a) h = ground arith

module _ (a b : ℕ) where
  pub whole_order : a ≤ b → at_most (whole a) (whole b) ≡ true
  unfolding at_most
  whole_order h = ground arith

  nonneg : at_most (whole 0) (plus a) ≡ true
  unfolding at_most
  nonneg = ground arith

pub times_of_nonneg :
    (n m e : ℕ) → 0 < m → at_most (whole 0) (times_of (whole n) (literal m e)) ≡ true
unfolding times_of
times_of_nonneg n m e h = nonneg (n * 100 * (m * 100 / 10 ^ e) / 100) 0

pub times_of_nonneg_left :
    (n m e : ℕ) → 0 < m → at_most (whole 0) (times_of (literal m e) (whole n)) ≡ true
unfolding times_of
times_of_nonneg_left n m e h = nonneg (m * 100 / 10 ^ e * (n * 100) / 100) 0

pub times_of_zero : (m e : ℕ) → times_of (whole 0) (literal m e) ≡ whole 0
unfolding times_of
times_of_zero m e = let z : 0 * (m * 100 / 10 ^ e) / 100 ≡ 0 = omega arith in rw z refl

pub times_of_zero_left : (m e : ℕ) → times_of (literal m e) (whole 0) ≡ whole 0
unfolding times_of
times_of_zero_left m e = let z : m * 100 / 10 ^ e * 0 ≡ 0 = omega arith in rw z refl

pub plus_of_zero : plus_of (whole 0) (whole 0) ≡ whole 0
unfolding plus_of
plus_of_zero = refl

pub whole_sub : (a b : ℕ) → b ≤ a → plus_of (whole a) (negate (whole b)) ≡ whole (a - b)
unfolding plus_of negate
whole_sub a b h =
    let above : leb (b * 100) (a * 100) ≡ true = ground arith in
    let same : a * 100 - b * 100 ≡ (a - b) * 100 = omega arith in rw (above, same) refl

pub whole_below : (a b : ℕ) → a < b → less (plus_of (whole a) (negate (whole b))) (whole 0) ≡ true
unfolding plus_of negate less
whole_below a b h =
    let above : leb (b * 100) (a * 100) ≡ false = ground arith in rw above (ground arith)

-- `sqrt` is not relied on.
abbrev pub decimals : Double
decimals = record {
  F = Decimal;
  of_ℕ = whole;
  lit = literal;
  add = plus_of;
  sub = λ a b. plus_of a (negate b);
  mul = times_of;
  div = over_of;
  neg = negate;
  sqrt = λ a. a;
  fmax = λ a b. if less a b then b else a;
  fmin = λ a b. if less a b then a else b;
  lt = less;
  le = at_most;
  le-of_ℕ = whole_order;
  sub_of_ℕ = λ a b h small. whole_sub a b h;
  sub_below = λ a b h small. whole_below a b h;
  lt_asym = asym;
  not_lt_trans = λ a b c n. not_less_trans a b c;
  not_lt_of_le = not_less_of_at_most;
  add_nonneg = plus_of_nonneg;
  mul_nonneg = times_of_nonneg;
  mul_nonneg_left = times_of_nonneg_left;
  mul_zero = times_of_zero;
  mul_zero_left = times_of_zero_left;
  add_zero = plus_of_zero;
  lt-neg = less-negate;
  neg_number = negate_number;
}
