-- ===== src/Base/Apart.antt =====
-- Lists of numbers without repetition, and what moving one element does to them.
use Prim.Native.Nat.{ℕ}
use mathlib.Core.Path.{sym}
use mathlib.Core.Logic.{◌≢◌}
use mathlib.Core.List.{List, [], ◌∷◌, ◌++◌}
use red_opt.Base.Lists.{All, All-append, All-left, All-right}

abbrev pub Fresh : ℕ → List ℕ → Type 0
Fresh i = All (λ j. j ≢ i)

abbrev pub Distinct : List ℕ → Type 0
Distinct [] = Unit
Distinct (x ∷ xs) = Fresh x xs × Distinct xs

pub Distinct-pull :
    (xs : List ℕ) (y : ℕ) (ys : List ℕ)
    → Distinct (xs ++ (y ∷ ys))
    → Fresh y (xs ++ ys) × Distinct (xs ++ ys)
Distinct-pull [] y ys h = h
Distinct-pull (x ∷ xs) y ys h =
    let (fresh, rest) = Distinct-pull xs y ys h.1 in
    let right = All-right (λ j. j ≢ x) xs (y ∷ ys) h.0 in
    (
      (λ e. right.0 (sym e), fresh),
      (All-append (λ j. j ≢ x) xs ys (All-left (λ j. j ≢ x) xs (y ∷ ys) h.0) right.1, rest),
    )

pub Distinct-push :
    (xs : List ℕ) (y : ℕ) (ys : List ℕ)
    → Fresh y (xs ++ ys)
    → Distinct (xs ++ ys)
    → Distinct (xs ++ (y ∷ ys))
Distinct-push [] y ys f d = (f, d)
Distinct-push (x ∷ xs) y ys f d = (
  All-append (λ j. j ≢ x) xs (y ∷ ys) (All-left (λ j. j ≢ x) xs ys d.0)
      (λ e. f.0 (sym e), All-right (λ j. j ≢ x) xs ys d.0),
  Distinct-push xs y ys f.1 d.1,
)
