-- ===== src/Pool/Best.antt =====
-- Insertion into a full pool, and the pool of `evictionPoolAlloc` (evict.c).
use red_opt.Base.{
  ℕ, zero, suc, ◌+◌, ◌<◌, ◌≡◌, refl, sym, [], ◌∷◌, All, Distinct, Fresh, length, arith,
}
use mathlib.Core.List.{Perm}
use mathlib.Core.Path.{subst}
use red_opt.Pool.{
  Sds, Pool, Ranking, pool_size, alloc_entries, eviction_pool_alloc, insert_candidate,
}
use red_opt.Pool.Spec.{Item}
use red_opt.Pool.Shape.{Free, Owned, buffers, IsPool, contents-Free}
use red_opt.Pool.Insert.{pool_contents, insert_candidate-refines}
use red_opt.Pool.Order.{IsOrder, IsRanked, Above, bounded_insert-best}

-- A candidate that is inserted into a full pool costs the pool one candidate, which may be the new
-- one; all others are kept, and none of them ranks below the one that is lost.
pub insert_candidate-best :
    {F : Type 0} (rk : Ranking F) (Ok : rk.R → Type 0) (o : IsOrder rk.R rk.lt Ok) (p : Pool F)
    (key : Sds) (r : rk.R) (dbid : ℕ)
    → IsPool p
    → IsRanked rk.lt Ok o (pool_contents rk p)
    → length (pool_contents rk p) ≡ pool_size
    → (x : Item rk.R) × Perm
        ((r, dbid, key) ∷ pool_contents rk p)
        (x ∷ pool_contents rk (insert_candidate rk p key r dbid))
      × Above rk.lt Ok x.0 (pool_contents rk (insert_candidate rk p key r dbid))
insert_candidate-best rk Ok o p key r dbid v ranked full =
    let (v', e) = insert_candidate-refines rk p key r dbid v in
    let (x, perm, above) =
      bounded_insert-best rk.lt Ok o (r, dbid, key) (pool_contents rk p) ranked full in
    (
      x,
      subst (λ l. Perm ((r, dbid, key) ∷ pool_contents rk p) (x ∷ l)) (sym e) perm,
      subst (Above rk.lt Ok x.0) (sym e) above,
    )

module _ {F : Type 0} (zero_score : F) where
  alloc-Free : (n j : ℕ) → All Free (alloc_entries zero_score n j)
  unfolding alloc_entries
  alloc-Free zero j = tt
  alloc-Free (suc n) j = (refl, alloc-Free n (j + 1))

  alloc-Owned : (n j : ℕ) → All Owned (alloc_entries zero_score n j)
  unfolding alloc_entries
  alloc-Owned zero j = tt
  alloc-Owned (suc n) j = (tt, alloc-Owned n (j + 1))

  alloc-Fresh : (n j i : ℕ) → i < j → Fresh i (buffers (alloc_entries zero_score n j))
  unfolding alloc_entries
  alloc-Fresh zero j i h = tt
  alloc-Fresh (suc n) j i h = (λ e. absurd (omega arith), alloc-Fresh n (j + 1) i (omega arith))

  alloc-Distinct : (n j : ℕ) → Distinct (buffers (alloc_entries zero_score n j))
  unfolding alloc_entries
  alloc-Distinct zero j = tt
  alloc-Distinct (suc n) j = (alloc-Fresh n (j + 1) j (omega arith), alloc-Distinct n (j + 1))

  length-alloc_entries : (n j : ℕ) → length (alloc_entries zero_score n j) ≡ n
  unfolding alloc_entries
  length-alloc_entries zero j = refl
  length-alloc_entries (suc n) j = omega (arith, length-alloc_entries n (j + 1))

  -- The pool that `evictionPoolAlloc` makes has the invariant, and no candidates.
  pub eviction_pool_alloc-IsPool :
      (rk : Ranking F)
      → IsPool (eviction_pool_alloc zero_score)
        × (pool_contents rk (eviction_pool_alloc zero_score) ≡ [])
  unfolding eviction_pool_alloc
  eviction_pool_alloc-IsPool rk = (
    record {
      packed = record {
        live = [];
        free = alloc_entries zero_score pool_size 0;
        split = refl;
        all_live = tt;
        all_free = alloc-Free pool_size 0;
        full = length-alloc_entries pool_size 0;
        owned = alloc-Owned pool_size 0;
        distinct = alloc-Distinct pool_size 0;
      };
      fits = λ i. omega arith;
    },
    contents-Free rk (λ i. []) (alloc_entries zero_score pool_size 0) (alloc-Free pool_size 0),
  )
