-- ===== src/Evict/Best.antt =====
-- The scan of the pool in `performEvictions` (evict.c), as its candidates see it.
use red_opt.Base.{ℕ, ◌≡◌, refl, sym, ap, ◌∙◌, List, [], ◌∷◌, ◌++◌, map}
use red_opt.Base.{
  Bool, true, false, Option, none, some, All, All-append, All-left, All-right, Distinct, length,
  length-append, length-map, arith,
}
use mathlib.Core.Path.{subst}
use mathlib.Core.List.{append_assoc, map-append}
use red_opt.Pool.{Sds, Entry, Ranking, pool_size}
use red_opt.Pool.Spec.{Item, item, contents}
use red_opt.Pool.Shape.{IsPacked, Live, Free, Owned, buffers, contents-Free, contents-Live}
use red_opt.Evict.{clear, Target, scan}
use red_opt.Evict.Scan.{target, Ghost, Scanned, nothing, picked, scan-Scanned}

module _ {R : Type 0} (exists : ℕ → Sds → Bool) where
  -- The key of the candidate is no longer in its database.
  abbrev pub Gone : Item R → Type 0
  Gone x = exists x.1 x.2 ≡ false

  -- What is chosen from the candidates, with the candidates that are left: the last one whose key
  -- exists; those after it are dropped.
  pub data Chosen : List (Item R) → Option Target × List (Item R) → Type 0 where
    exhausted : (xs : List (Item R)) → All Gone xs → Chosen xs (none, [])
    chosen :
        (below : List (Item R)) (x : Item R) (above : List (Item R))
        → exists x.1 x.2 ≡ true
        → All Gone above
        → Chosen (below ++ (x ∷ above)) (some (x.1, x.2), below)

module _ {F : Type 0} (zero_score : F) where
  cleared-Free : (es : List (Entry F)) → All Free (map (clear zero_score) es)
  cleared-Free [] = tt
  cleared-Free (e ∷ es) = (refl, cleared-Free es)

  cleared-Owned : (es : List (Entry F)) → All Owned (map (clear zero_score) es)
  cleared-Owned [] = tt
  cleared-Owned (e ∷ es) = (tt, cleared-Owned es)

  buffers-cleared : (es : List (Entry F)) → buffers (map (clear zero_score) es) ≡ buffers es
  buffers-cleared [] = refl
  buffers-cleared (e ∷ es) = ap (◌∷◌ e.cached) (buffers-cleared es)

  -- Clearing the occupied entries from a place on keeps the entries packed.
  clear-IsPacked :
      (below above free : List (Entry F))
      → All Live below
      → All Free free
      → length (below ++ (above ++ free)) ≡ pool_size
      → All Owned (below ++ (above ++ free))
      → Distinct (buffers (below ++ (above ++ free)))
      → IsPacked (below ++ (map (clear zero_score) above ++ free))
  clear-IsPacked below above free l f full owned distinct =
      let rest = map (clear zero_score) above ++ free in
      let right = All-right Owned below (above ++ free) owned in
      let same : buffers (below ++ (above ++ free)) ≡ buffers (below ++ rest) =
        map-append (λ e. e.cached) below (above ++ free)
        ∙ ap (◌++◌ (buffers below)) (
            map-append (λ e. e.cached) above free
            ∙ ap (λ l. l ++ buffers free) (sym (buffers-cleared above))
            ∙ sym (map-append (λ e. e.cached) (map (clear zero_score) above) free))
        ∙ sym (map-append (λ e. e.cached) below rest) in
      record {
        live = below;
        free = rest;
        split = refl;
        all_live = l;
        all_free = All-append Free (map (clear zero_score) above) free (cleared-Free above) f;
        full = omega (
          arith,
          full,
          length-append below (above ++ free),
          length-append below rest,
          length-append above free,
          length-append (map (clear zero_score) above) free,
          length-map (clear zero_score) above,
        );
        owned = All-append Owned below rest (All-left Owned below (above ++ free) owned) (
            All-append Owned (map (clear zero_score) above) free (cleared-Owned above)
              (All-right Owned above free right));
        distinct = subst Distinct same distinct;
      }

module _ {F : Type 0} (rk : Ranking F) (zero_score : F) (bufs : ℕ → Sds)
    (exists : ℕ → Sds → Bool) where
  Gone-items :
      (es : List (Entry F))
      → All (Ghost zero_score bufs exists) es
      → All (Gone exists) (map (item rk bufs) es)
  Gone-items [] h = tt
  Gone-items (e ∷ es) h = (h.0, Gone-items es h.1)

  -- The outcome of a scan, with its entries read as candidates.
  abbrev Outcome : List (Entry F) → Option Target × List (Entry F) → Type 0
  Outcome es out =
      IsPacked out.1 × Chosen exists (contents rk bufs es) (out.0, contents rk bufs out.1)

  outcome :
      (live free : List (Entry F)) {out : Option Target × List (Entry F)}
      → All Live live
      → All Free free
      → length (live ++ free) ≡ pool_size
      → All Owned (live ++ free)
      → Distinct (buffers (live ++ free))
      → Scanned zero_score bufs exists live free out
      → Outcome (live ++ free) out
  outcome live free l f full owned distinct (nothing all) =
      let cleared =
        All-append Free (map (clear zero_score) live) free (cleared-Free zero_score live) f in
      (
        clear-IsPacked zero_score [] live free tt f full owned distinct,
        subst
            (λ xs. Chosen exists xs (none, contents rk bufs (map (clear zero_score) live ++ free)))
            (sym (contents-Live rk bufs live free l f))
            (subst (λ xs. Chosen exists (map (item rk bufs) live) (none, xs))
              (sym (contents-Free rk bufs (map (clear zero_score) live ++ free) cleared))
              (exhausted (map (item rk bufs) live) (Gone-items live all))),
      )
  outcome live free l f full owned distinct (picked below e above split there all) =
      let es = ap (λ l. l ++ free) split ∙ append_assoc below (e ∷ above) free in
      let l' = subst (All Live) split l in
      let low = All-left Live below (e ∷ above) l' in
      let cleared =
        All-append Free (map (clear zero_score) (e ∷ above)) free
          (cleared-Free zero_score (e ∷ above)) f in
      let before : contents rk bufs (live ++ free)
          ≡ map (item rk bufs) below ++ (item rk bufs e ∷ map (item rk bufs) above) =
        contents-Live rk bufs live free l f
        ∙ ap (map (item rk bufs)) split
        ∙ map-append (item rk bufs) below (e ∷ above) in
      let after =
        contents-Live rk bufs below (map (clear zero_score) (e ∷ above) ++ free) low cleared in
      (
        clear-IsPacked zero_score below (e ∷ above) free low f (ap length (sym es) ∙ full)
            (subst (All Owned) es owned) (subst (λ l. Distinct (buffers l)) es distinct),
        subst
            (λ xs. Chosen exists xs (
              some (target zero_score bufs exists e),
              contents rk bufs (below ++ (map (clear zero_score) (e ∷ above) ++ free)),
            ))
            (sym before)
            (subst
              (λ xs.
                Chosen exists
                  (map (item rk bufs) below ++ (item rk bufs e ∷ map (item rk bufs) above))
                  (some (target zero_score bufs exists e), xs))
              (sym after)
              (chosen (map (item rk bufs) below) (item rk bufs e) (map (item rk bufs) above) there
                (Gone-items above all))),
      )

  -- The scan over the entries of a pool with the invariant leaves its entries packed, each with
  -- its buffer. It chooses the last candidate whose key still exists, and leaves the candidates
  -- before it; if no key of a candidate exists it chooses none, and leaves no candidates.
  pub scan-Chosen :
      (es : List (Entry F))
      → IsPacked es
      → IsPacked (scan zero_score bufs exists pool_size es).1
        × Chosen exists (contents rk bufs es) (
          (scan zero_score bufs exists pool_size es).0,
          contents rk bufs (scan zero_score bufs exists pool_size es).1,
        )
  scan-Chosen es v =
      subst (λ l. Outcome l (scan zero_score bufs exists pool_size l)) (sym v.split)
        (outcome v.live v.free v.all_live v.all_free (ap length (sym v.split) ∙ v.full)
          (subst (All Owned) v.split v.owned) (subst (λ l. Distinct (buffers l)) v.split v.distinct)
          (scan-Scanned zero_score bufs exists pool_size v.live v.free
            (omega (arith, v.full, ap length v.split, length-append v.live v.free)) v.all_live
            v.all_free))
