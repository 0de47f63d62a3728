-- ===== src/Dict.antt =====
-- The dictionary of `dict.h`, which is not part of the repository, as a parameter: a finite map
-- with a size, and the equality of keys as bytes.
use red_opt.Base.{ℕ, ◌<◌, ◌≡◌, ◌↔◌, refl, [], ◌∷◌, Bool, true, false, ◌&&◌}
use red_opt.Base.{Option, none, some, ◌==◌, if◌then◌else◌, arith}
use red_opt.Pool.{Sds}

-- Here it stands for the hash table's comparison, which `sdslen` and `memcmp` decide.
unfoldable pub sds_eq : Sds → Sds → Bool
sds_eq [] [] = true
sds_eq (x ∷ xs) (y ∷ ys) = x == y && sds_eq xs ys
sds_eq _ _ = false

pub sds_eq_iff : (a b : Sds) → (sds_eq a b ≡ true) ↔ (a ≡ b)
unfolding sds_eq
sds_eq_iff [] [] = (λ h. refl, λ h. refl)
sds_eq_iff [] (y ∷ ys) = (λ h. cc, λ h. cc)
sds_eq_iff (x ∷ xs) [] = (λ h. cc, λ h. cc)
sds_eq_iff (x ∷ xs) (y ∷ ys) =
    let ih = sds_eq_iff xs ys in (λ h. ground (arith, ih), λ h. ground (arith, ih))

pub record DictApi (V : Type 0) : Type 1 where
  pub Dict : Type 0
  -- `dictFind`, with `NULL` as `none`
  pub find : Dict → Sds → Option V
  -- `dictAdd`, `dictSetVal`: the entry of the key has this value
  pub put : Dict → Sds → V → Dict
  -- `dictDelete`, `dictTwoPhaseUnlinkFree`
  pub remove : Dict → Sds → Dict
  -- `dictSize`
  pub size : Dict → ℕ
  -- `dictEmpty`
  pub empty : Dict
  pub find-put :
      (m : Dict) (k : Sds) (v : V) (j : Sds)
      → find (put m k v) j ≡ (if sds_eq k j then some v else find m j)
  pub find-remove :
      (m : Dict) (k j : Sds) → find (remove m k) j ≡ (if sds_eq k j then none else find m j)
  pub size-empty : size empty ≡ 0
  pub find_of_size_zero : (m : Dict) (k : Sds) → size m ≡ 0 → find m k ≡ none
  pub size-remove : (m : Dict) (k : Sds) (v : V) → find m k ≡ some v → size (remove m k) < size m
