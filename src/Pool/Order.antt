-- ===== src/Pool/Order.antt =====
-- The order of the candidates in a list that the bounded insertion of `Pool.Spec` builds.
use red_opt.Base.{
  ℕ, ◌+◌, ◌≤◌, ◌≡◌, refl, List, [], ◌∷◌, Bool, true, false, All, length, drop, ltb, ltb→lt, arith,
}
use red_opt.Base.{Bool-cases, inl, inr}
use mathlib.Core.List.{Perm}
use mathlib.Core.List.Perm
use mathlib.Core.Path.{subst}
use red_opt.Pool.{pool_size}
use red_opt.Pool.Spec.{
  Item, insert_sorted, bounded_insert, bounded_insert-full, length-insert_sorted,
}

-- What a comparison of ranks needs; `Ok` leaves out values such as a NaN.
pub record IsOrder (R : Type 0) (lt : R → R → Bool) (Ok : R → Type 0) : Type 0 where
  pub asym : (a b : R) → lt a b ≡ true → lt b a ≡ false
  pub not_lt_trans : (a b c : R) → Ok b → lt b a ≡ false → lt c b ≡ false → lt c a ≡ false

module _ {R : Type 0} (lt : R → R → Bool) (Ok : R → Type 0) where
  -- No candidate behind this one ranks lower.
  abbrev pub Above : R → List (Item R) → Type 0
  Above a = All (λ y. lt y.0 a ≡ false)

  -- In ascending order.
  abbrev pub Ascending : List (Item R) → Type 0
  Ascending [] = Unit
  Ascending (x ∷ xs) = Above x.0 xs × Ascending xs

  abbrev pub AllOk : List (Item R) → Type 0
  AllOk = All (λ y. Ok y.0)

module _ {R : Type 0} (lt : R → R → Bool) (Ok : R → Type 0) (o : IsOrder R lt Ok) where
  Above-insert_sorted :
      (a : R) (c : Item R) (xs : List (Item R))
      → lt c.0 a ≡ false
      → Above lt Ok a xs
      → Above lt Ok a (insert_sorted lt c xs)
  unfolding insert_sorted
  Above-insert_sorted a c [] h k = (h, tt)
  Above-insert_sorted a c (x ∷ xs) h k = elim (Bool-cases (lt x.0 c.0)) [
    | inl later ↦ rw later (k.0, Above-insert_sorted a c xs h k.1)
    | inr here ↦ rw here (h, k)
  ]

  Above-trans :
      (a b : R) (xs : List (Item R)) → Ok b → lt b a ≡ false → Above lt Ok b xs → Above lt Ok a xs
  Above-trans a b [] ok h k = tt
  Above-trans a b (x ∷ xs) ok h k = (o.not_lt_trans a b x.0 ok h k.0, Above-trans a b xs ok h k.1)

  pub insert_sorted-Ascending :
      (c : Item R) (xs : List (Item R))
      → AllOk lt Ok xs
      → Ascending lt Ok xs
      → Ascending lt Ok (insert_sorted lt c xs)
  unfolding insert_sorted
  insert_sorted-Ascending c [] ok h = (tt, tt)
  insert_sorted-Ascending c (x ∷ xs) ok h = elim (Bool-cases (lt x.0 c.0)) [
    | inl later ↦ rw later (
      Above-insert_sorted x.0 c xs (o.asym x.0 c.0 later) h.0,
      insert_sorted-Ascending c xs ok.1 h.1,
    )
    | inr here ↦ rw here ((here, Above-trans c.0 x.0 xs ok.0 here h.0), h)
  ]

  insert_sorted-AllOk :
      (c : Item R) (xs : List (Item R))
      → Ok c.0
      → AllOk lt Ok xs
      → AllOk lt Ok (insert_sorted lt c xs)
  unfolding insert_sorted
  insert_sorted-AllOk c [] h k = (h, tt)
  insert_sorted-AllOk c (x ∷ xs) h k = elim (Bool-cases (lt x.0 c.0)) [
    | inl later ↦ rw later (k.0, insert_sorted-AllOk c xs h k.1)
    | inr here ↦ rw here (h, k)
  ]

  insert_sorted-perm : (c : Item R) (xs : List (Item R)) → Perm (c ∷ xs) (insert_sorted lt c xs)
  unfolding insert_sorted
  insert_sorted-perm c [] = Perm.refl _
  insert_sorted-perm c (x ∷ xs) = elim (Bool-cases (lt x.0 c.0)) [
    | inl later ↦ rw later (Perm.trans (Perm.swap x c xs) (Perm.cons x (insert_sorted-perm c xs)))
    | inr here ↦ rw here (Perm.refl _)
  ]

  -- A candidate list as the pool holds it.
  pub record IsRanked (xs : List (Item R)) : Type 0 where
    pub ascending : Ascending lt Ok xs
    pub all_ok : AllOk lt Ok xs
    pub bounded : length xs ≤ pool_size

  drop-IsRanked :
      (ys : List (Item R))
      → Ascending lt Ok ys
      → AllOk lt Ok ys
      → length ys ≤ pool_size + 1
      → IsRanked (drop 1 ys)
  drop-IsRanked [] h k l = record { ascending = tt; all_ok = tt; bounded = omega arith }
  drop-IsRanked (y ∷ ys) h k l = record { ascending = h.1; all_ok = k.1; bounded = omega arith }

  -- The bounded insertion of a candidate keeps the order and the bound of sixteen.
  pub bounded_insert-IsRanked :
      (c : Item R) (xs : List (Item R)) → Ok c.0 → IsRanked xs → IsRanked (bounded_insert lt c xs)
  unfolding bounded_insert
  bounded_insert-IsRanked c xs h v =
      let up = insert_sorted-Ascending c xs v.all_ok v.ascending in
      let ok = insert_sorted-AllOk c xs h v.all_ok in
      let l = length-insert_sorted lt c xs in
      elim (Bool-cases (ltb (length xs) pool_size)) [
        | inl room ↦
            rw room
              (record { ascending = up; all_ok = ok; bounded = omega (arith, l, ltb→lt _ _ room) })
        | inr full ↦
            rw full (drop-IsRanked (insert_sorted lt c xs) up ok (omega (arith, l, v.bounded)))
      ]

  split_first :
      (ys : List (Item R)) (n : ℕ)
      → length ys ≡ n + 1
      → Ascending lt Ok ys
      → (x : Item R) × (ys ≡ x ∷ drop 1 ys) × Above lt Ok x.0 (drop 1 ys)
  split_first [] n h a = absurd (omega arith)
  split_first (y ∷ ys) n h a = (y, refl, a.0)

  -- On a full list the bounded insertion keeps all candidates, the new one included, except one,
  -- and none of those kept ranks below the one that is lost.
  pub bounded_insert-best :
      (c : Item R) (xs : List (Item R))
      → IsRanked xs
      → length xs ≡ pool_size
      → (x : Item R) × Perm (c ∷ xs) (x ∷ bounded_insert lt c xs)
        × Above lt Ok x.0 (bounded_insert lt c xs)
  bounded_insert-best c xs v full =
      let (x, e, above) =
        split_first (insert_sorted lt c xs) (length xs) (length-insert_sorted lt c xs)
          (insert_sorted-Ascending c xs v.all_ok v.ascending) in
      rw (bounded_insert-full lt c xs full)
        (x, subst (Perm (c ∷ xs)) e (insert_sorted-perm c xs), above)
