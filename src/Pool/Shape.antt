-- ===== src/Pool/Shape.antt =====
-- The representation invariant of the pool: sixteen entries, the occupied ones first; each has a
-- buffer that no other entry has, and a key in a buffer is in the entry's own.
use red_opt.Base.{ℕ, ◌≤◌, ◌≡◌, ◌≢◌, refl, sym, ap, ◌∙◌, List, [], ◌∷◌, ◌++◌, map}
use red_opt.Base.{true, false, All, Distinct, length}
use mathlib.Core.Path.{ap₂}
use mathlib.Core.List.{map-append}
use red_opt.Base.{Fresh, Distinct-pull, Distinct-push}
use red_opt.Pool.{
  Sds, KeyPtr, null, dup, buf, Entry, Pool, Ranking, is_null, name, pool_size, cached_size,
}
use red_opt.Pool.Spec.{item, contents}

abbrev pub KeyOwned : KeyPtr → ℕ → Type 0
KeyOwned null c = Unit
KeyOwned (dup s) c = Unit
KeyOwned (buf i) c = i ≡ c

module _ {F : Type 0} where
  abbrev pub Live : Entry F → Type 0
  Live e = is_null e.key ≡ false

  abbrev pub Free : Entry F → Type 0
  Free e = is_null e.key ≡ true

  abbrev pub Owned : Entry F → Type 0
  Owned e = KeyOwned e.key e.cached

  abbrev pub buffers : List (Entry F) → List ℕ
  buffers = map (λ e. e.cached)

  -- The entries: the occupied ones, then the free ones.
  pub record IsPacked (es : List (Entry F)) : Type 0 where
    pub live : List (Entry F)
    pub free : List (Entry F)
    pub split : es ≡ live ++ free
    pub all_live : All Live live
    pub all_free : All Free free
    pub full : length es ≡ pool_size
    pub owned : All Owned es
    pub distinct : Distinct (buffers es)

  pub record IsPool (p : Pool F) : Type 0 where
    pub packed : IsPacked p.entries
    pub fits : (i : ℕ) → length (p.bufs i) ≤ cached_size

  module _ (rk : Ranking F) (bufs : ℕ → Sds) where
    pub contents-Free : (es : List (Entry F)) → All Free es → contents rk bufs es ≡ []
    unfolding contents
    contents-Free [] h = refl
    contents-Free (e ∷ es) h = rw h.0 (contents-Free es h.1)

    pub contents-Live :
        (es fs : List (Entry F))
        → All Live es
        → All Free fs
        → contents rk bufs (es ++ fs) ≡ map (item rk bufs) es
    unfolding contents
    contents-Live [] fs h k = contents-Free fs k
    contents-Live (e ∷ es) fs h k = rw h.0 (ap (◌∷◌ (item rk bufs e)) (contents-Live es fs h.1 k))

name-other :
    (bufs : ℕ → Sds) (i : ℕ) (bufs' : ℕ → Sds) (k : KeyPtr) (c : ℕ)
    → ((j : ℕ) → j ≢ i → bufs' j ≡ bufs j)
    → KeyOwned k c
    → c ≢ i
    → name bufs' k ≡ name bufs k
name-other bufs i bufs' null c same o f = refl
name-other bufs i bufs' (dup s) c same o f = refl
name-other bufs i bufs' (buf j) c same o f = same j (λ e. f (sym o ∙ e))

-- A write to a buffer leaves the keys of the entries alone that have other buffers.
module _ {F : Type 0} (rk : Ranking F) where
  pub item-other :
      (bufs : ℕ → Sds) (i : ℕ) (bufs' : ℕ → Sds)
      → ((j : ℕ) → j ≢ i → bufs' j ≡ bufs j)
      → (es : List (Entry F)) → All Owned es
      → All (λ j. j ≢ i) (buffers es)
      → map (item rk bufs') es ≡ map (item rk bufs) es
  item-other bufs i bufs' same [] o f = refl
  item-other bufs i bufs' same (e ∷ es) o f =
      ap₂ (λ n rest. (rk.rank e, e.dbid, n) ∷ rest)
        (name-other bufs i bufs' e.key e.cached same o.0 f.0)
        (item-other bufs i bufs' same es o.1 f.1)

module _ {F : Type 0} where
  pub buffers-pull :
      (xs : List (Entry F)) (y : Entry F) (ys : List (Entry F))
      → Distinct (buffers (xs ++ (y ∷ ys)))
      → Fresh y.cached (buffers (xs ++ ys)) × Distinct (buffers (xs ++ ys))
  buffers-pull xs y ys h =
      rw map-append (Distinct-pull (buffers xs) y.cached (buffers ys) (rw map-append at h))

  pub buffers-push :
      (xs : List (Entry F)) (y : Entry F) (ys : List (Entry F))
      → Fresh y.cached (buffers (xs ++ ys))
      → Distinct (buffers (xs ++ ys))
      → Distinct (buffers (xs ++ (y ∷ ys)))
  buffers-push xs y ys f d =
      rw map-append
        (Distinct-push (buffers xs) y.cached (buffers ys) (rw map-append at f) (rw map-append at d))
