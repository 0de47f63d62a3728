-- ===== src/Config/Parse.antt =====
-- The ways in which the text of a numeric parameter is read (config.c).
use red_opt.Base.{ℕ, zero, suc, ◌%◌, ◌^◌, ◌≡◌, refl, sym, ap, ◌∙◌, ◌⊎◌, List, [], ◌∷◌, ◌++◌}
use red_opt.Base.{
  Bool, true, false, not, ◌||◌, Option, none, some, ◌>>=◌, >>=-eq-some, ◌==◌, if◌then◌else◌,
}
use red_opt.Base.{ℤ, pos, negsuc, ltb_ℤ, signed, IsLong, Bool-cases, inl, inr, arith}
use mathlib.Core.Path.{subst}
use red_opt.Object.Strings.{Numbers}
use red_opt.Config.{NumericConfig, Parsers, percentage, percent_sign, negated, or_else}
use red_opt.Config.{
  parse_percent, as_memory, as_percent, as_octal, as_integer, numeric_parse_string,
}

pub percentage-append :
    (s : List ℕ) {ds : List ℕ} → percentage s ≡ some ds → ds ++ (percent_sign ∷ []) ≡ s
unfolding percentage
percentage-append [] e = absurd cc
percentage-append (a ∷ []) e = absurd cc
percentage-append (a ∷ (b ∷ [])) {ds} e = elim (Bool-cases (b == percent_sign)) [
  | inl sign ↦
      let e' = rw sign at e in
      let same : a ∷ [] ≡ ds = cc in
      let same_b : percent_sign ≡ b = ground arith in
      ap (λ l. l ++ (percent_sign ∷ [])) (sym same) ∙ ap (λ x. a ∷ (x ∷ [])) same_b
  | inr other ↦ let e' = rw other at e in absurd cc
]
percentage-append (a ∷ (b ∷ (c ∷ s))) {ds} e =
    let (rest, e1, e2) = >>=-eq-some (percentage (b ∷ (c ∷ s))) _ e in
    let same : a ∷ rest ≡ ds = cc in
    ap (λ l. l ++ (percent_sign ∷ [])) (sym same) ∙ ap (◌∷◌ a) (percentage-append (b ∷ (c ∷ s)) e1)

or_else-some :
    {A : Type 0} (a b : Option A) {x : A} → or_else a b ≡ some x → (a ≡ some x) ⊎ (b ≡ some x)
or_else-some none b e = inr e
or_else-some (some y) b e = inl e

in_branch :
    {A : Type 0} (b : Bool) {o : Option A} {x : A}
    → (if b then o else none) ≡ some x
    → (b ≡ true) × (o ≡ some x)
in_branch true e = (refl, e)
in_branch false e = absurd cc

module _ (num : Numbers) (lib : Parsers) where
  pub parse_percent-found :
      (value : List ℕ) {v : ℤ}
      → parse_percent num lib value ≡ some v
      → (ds : List ℕ) × (res : ℤ) × (percentage value ≡ some ds)
        × (num.string2ll ds ≡ some res)
        × (ltb_ℤ res (pos 0) ≡ false)
        × (v ≡ negated res)
  parse_percent-found value {v} e =
      let (res, e1, k1) = >>=-eq-some (percentage value >>= num.string2ll) _ e in
      let (ds, e2, k2) = >>=-eq-some (percentage value) _ e1 in
      elim (Bool-cases (ltb_ℤ res (pos 0))) [
        | inl minus ↦ let k3 = rw minus at k1 in absurd cc
        | inr plus ↦
            let k3 = rw plus at k1 in
            let same : v ≡ negated res = cc in (ds, res, e2, k2, plus, same)
      ]

  -- The four ways to read a value.
  pub parse-cases :
      (config : NumericConfig) (value : List ℕ) {v : ℤ}
      → numeric_parse_string num lib config value ≡ some v
      → ((config.flags.memory ≡ true)
          × (res : ℕ) × (lib.memtoull value ≡ some res)
          × (v ≡ signed (2 ^ 63) (res % 2 ^ 64)))
        ⊎ ((config.flags.percent ≡ true) × (parse_percent num lib value ≡ some v))
        ⊎ ((config.flags.octal ≡ true) × (lib.octal value ≡ some v))
        ⊎ (((config.flags.memory || (config.flags.percent || config.flags.octal)) ≡ false)
            × (num.string2ll value ≡ some v))
  unfolding numeric_parse_string
  parse-cases config value {v} e =
      let memory = as_memory num lib config in
      let percent = as_percent num lib config in
      let octal = as_octal num lib config in
      let integer = as_integer num lib config in
      elim (or_else-some (memory value)
        (or_else (percent value) (or_else (octal value) (integer value))) e) [
          | inl first ↦
              let (on, parsed) = in_branch config.flags.memory first in
              let (res, e1, k1) =
                >>=-eq-some (lib.memtoull value) (λ x. some (signed (2 ^ 63) (x % 2 ^ 64)))
                  parsed in
              let same : v ≡ signed (2 ^ 63) (res % 2 ^ 64) = cc in inl (on, res, e1, same)
          | inr rest ↦
              elim (or_else-some (percent value) (or_else (octal value) (integer value)) rest) [
                | inl second ↦ inr (inl (in_branch config.flags.percent second))
                | inr rest' ↦ elim (or_else-some (octal value) (integer value) rest') [
                  | inl third ↦ inr (inr (inl (in_branch config.flags.octal third)))
                  | inr last ↦
                      let (none_set, parsed) =
                        in_branch
                          (not
                            (config.flags.memory || (config.flags.percent || config.flags.octal)))
                          last in
                      inr (inr (inr (ground arith, parsed)))
                ]
              ]
        ]

  pub parse-IsLong :
      (config : NumericConfig) (value : List ℕ) {v : ℤ}
      → numeric_parse_string num lib config value ≡ some v
      → IsLong v
  parse-IsLong config value {v} e = elim (parse-cases config value e) [
    | inl (memory, res, parsed, same) ↦ subst IsLong (sym same) (ground arith)
    | inr (inl (percent, parsed)) ↦
        let (ds, res, e1, e2, plus, same) = parse_percent-found value parsed in
        subst IsLong (sym same) (negated_long res (num.string2ll-IsLong ds res e2) plus)
    | inr (inr (inl (octal, parsed))) ↦ lib.octal-IsLong value v parsed
    | inr (inr (inr (plain, parsed))) ↦ num.string2ll-IsLong value v parsed
  ]
    where
      negated_long : (res : ℤ) → IsLong res → ltb_ℤ res (pos 0) ≡ false → IsLong (negated res)
      negated_long (pos zero) h k = ground arith
      negated_long (pos (suc n)) h k = ground arith
      negated_long (negsuc n) h k = absurd (ground arith)
