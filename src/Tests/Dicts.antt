-- ===== src/Tests/Dicts.antt =====
-- An association list, which has the laws that `DictApi` asks for.
use red_opt.Base.{◌≤◌, ◌<◌, ◌≡◌, refl, List, [], ◌∷◌, true, false, Option, none, some, length}
use red_opt.Base.{Bool-cases, inl, inr, if◌then◌else◌, arith}
use mathlib.Core.Path.{subst}
use red_opt.Pool.{Sds}
use red_opt.Dict.{DictApi, sds_eq, sds_eq_iff}

same_key : (a b c : Sds) → sds_eq a b ≡ true → sds_eq a c ≡ sds_eq b c
same_key a b c h = subst (λ x. sds_eq a c ≡ sds_eq x c) ((sds_eq_iff a b).0 h) refl

module _ {V : Type 0} where
  unfoldable pub assoc_find : List (Sds × V) → Sds → Option V
  assoc_find [] j = none
  assoc_find (x ∷ m) j = let later = assoc_find m j in if sds_eq x.0 j then some x.1 else later

  unfoldable pub assoc_remove : List (Sds × V) → Sds → List (Sds × V)
  assoc_remove [] k = []
  assoc_remove (x ∷ m) k = let rest = assoc_remove m k in if sds_eq x.0 k then rest else x ∷ rest

  pub assoc_find-remove :
      (m : List (Sds × V)) (k j : Sds)
      → assoc_find (assoc_remove m k) j ≡ (if sds_eq k j then none else assoc_find m j)
  unfolding assoc_find assoc_remove
  assoc_find-remove [] k j = ground arith
  assoc_find-remove (x ∷ m) k j = elim (Bool-cases (sds_eq x.0 k)) [
    | inl gone ↦ ground (arith, assoc_find-remove m k j, same_key x.0 k j gone)
    | inr kept ↦ elim (Bool-cases (sds_eq k j)) [
      | inl here ↦
          let e = (sds_eq_iff k j).0 here in
          let other : sds_eq x.0 j ≡ false = subst (λ y. sds_eq x.0 y ≡ false) e kept in
          ground (arith, assoc_find-remove m k j)
      | inr there ↦ ground (arith, assoc_find-remove m k j)
    ]
  ]

  pub assoc_find-empty : (m : List (Sds × V)) (k : Sds) → length m ≡ 0 → assoc_find m k ≡ none
  unfolding assoc_find
  assoc_find-empty [] k h = refl
  assoc_find-empty (x ∷ m) k h = absurd (omega arith)

  pub assoc_find-put :
      (m : List (Sds × V)) (k : Sds) (v : V) (j : Sds)
      → assoc_find ((k, v) ∷ m) j ≡ (if sds_eq k j then some v else assoc_find m j)
  unfolding assoc_find
  assoc_find-put m k v j = refl

pub length-assoc_remove :
    {V : Type 0} (m : List (Sds × V)) (k : Sds)
    → (length (assoc_remove m k) ≤ length m)
      × ((v : V) → assoc_find m k ≡ some v → length (assoc_remove m k) < length m)
unfolding assoc_find assoc_remove
length-assoc_remove [] k = (omega arith, λ v e. absurd cc)
length-assoc_remove (x ∷ m) k =
    let (few, fewer) = length-assoc_remove m k in
    elim (Bool-cases (sds_eq x.0 k)) [
      | inl gone ↦
          rw (gone, assoc_find, assoc_remove) (omega (arith, few), λ v e. omega (arith, few))
      | inr kept ↦
          rw (kept, assoc_find, assoc_remove) (omega (arith, few), λ v e. omega (arith, fewer v e))
    ]

abbrev pub assoc : (V : Type 0) → DictApi V
assoc V = record {
  Dict = List (Sds × V);
  find = assoc_find;
  put = λ m k v. (k, v) ∷ m;
  remove = assoc_remove;
  size = length;
  empty = [];
  size-empty = refl;
  find-put = assoc_find-put;
  find-remove = assoc_find-remove;
  find_of_size_zero = assoc_find-empty;
  size-remove = λ m k v e. (length-assoc_remove m k).1 v e;
}
