-- ===== src/Pool/Insert.antt =====
-- The insertion of a candidate (evict.c) against the bounded insertion of `Pool.Spec`.
use red_opt.Base.{ℕ, ◌≤◌, ◌≡◌, ◌≢◌, refl, sym, ap, ◌∙◌, List, [], ◌∷◌, ◌++◌, map}
use red_opt.Base.{false, All, Distinct, length, arith, All-left, All-right}
use red_opt.Base.{
  All-append, Bool-cases, inl, inr, ltb, last_split, length-append, modify, modify-append,
  get_elem?-append,
}
use mathlib.Core.List.{append_assoc, map-append}
use mathlib.Core.Path.{subst, ap₂}
use red_opt.Pool.{Sds, Entry, Pool, Ranking, is_null, name, pool_size, cached_size, find_slot}
use red_opt.Pool.{key_for, fill_bufs, fill_entry, insert_candidate, cached_at, cached_of}
use red_opt.Pool.Spec.{Item, item, contents, insert_sorted, bounded_insert}
use red_opt.Pool.Shape.{
  KeyOwned, Live, Owned, buffers, IsPacked, IsPool, contents-Live, item-other, buffers-pull,
}
use red_opt.Pool.Room.{slot, Room, Outcome, skipped, placed}
use red_opt.Pool.Place.{Stopped, at_free, at_bottom, at_left, at_right}

-- The key that an entry gets, and the buffers after it has been copied.
module _ (bufs : ℕ → Sds) (key : Sds) (c : ℕ) where
  key_for-live : is_null (key_for key c) ≡ false
  key_for-live = ground arith

  key_for-owned : KeyOwned (key_for key c) c
  key_for-owned = elim (Bool-cases (ltb cached_size (length key))) [
    | inl long ↦ rw long tt
    | inr short ↦ rw short refl
  ]

  key_for-name : name (fill_bufs bufs key c) (key_for key c) ≡ key
  key_for-name = ground arith

  fill_bufs-other : (j : ℕ) → j ≢ c → fill_bufs bufs key c j ≡ bufs j
  fill_bufs-other j ne = ground arith

  fill_bufs-fits :
      ((j : ℕ) → length (bufs j) ≤ cached_size)
      → (j : ℕ) → length (fill_bufs bufs key c j) ≤ cached_size
  fill_bufs-fits h j = ground (arith, h j)

module _ {F : Type 0} (rk : Ranking F) where
  open rk use {R, rank, lt}

  dispatch :
      (pre post free : List (Entry F)) (r : R)
      → Stopped rk pre post free r
      → Outcome rk (pre ++ (post ++ free)) r
  dispatch [] post [] r s = at_bottom rk post r s
  dispatch (p ∷ ps) post [] r s = at_left rk p ps post r s
  dispatch pre [] (f ∷ fs) r s = at_free rk pre f fs r s
  dispatch pre (y ∷ ys) (f ∷ fs) r s =
      let (gs, z, e, l) = last_split (f ∷ fs) (length fs) refl in
      subst (λ l. Stopped rk pre (y ∷ ys) l r → Outcome rk (pre ++ (y ∷ (ys ++ l))) r) (sym e)
        (at_right rk pre y ys gs z r) s

  outcome : (es : List (Entry F)) (r : R) → IsPacked es → Outcome rk es r
  outcome es r p =
      let s = slot rk p.live p.free r p.all_live p.all_free in
      let e : p.live ++ p.free ≡ s.pre ++ (s.post ++ p.free) =
        ap (λ l. l ++ p.free) s.parts ∙ append_assoc s.pre s.post p.free in
      let live = subst (All Live) s.parts p.all_live in
      let counted : (bufs : ℕ → Sds)
          → contents rk bufs (s.pre ++ (s.post ++ p.free)) ≡ map (item rk bufs) p.live =
        λ bufs.
          ap (contents rk bufs) (sym e)
          ∙ contents-Live rk bufs p.live p.free p.all_live p.all_free in
      subst (λ l. Outcome rk l r) (sym (p.split ∙ e))
        (dispatch s.pre s.post p.free r (record {
          place = ap (λ l. find_slot rk l r) (sym e) ∙ s.place;
          pre_live = All-left Live s.pre s.post live;
          post_live = All-right Live s.pre s.post live;
          all_free = p.all_free;
          full = subst (λ l. length l ≡ pool_size) (p.split ∙ e) p.full;
          owned = subst (All Owned) (p.split ∙ e) p.owned;
          distinct = subst (λ l. Distinct (buffers l)) (p.split ∙ e) p.distinct;
          sorted = λ bufs dbid key.
              ap (insert_sorted lt (r, dbid, key)) (counted bufs) ∙ s.sorted bufs dbid key;
          counted = λ bufs. counted bufs ∙ ap (map (item rk bufs)) s.parts;
        }))

  -- A filled place.
  module _ (bufs : ℕ → Sds) (key : Sds) (r : R) (dbid : ℕ) {es es' : List (Entry F)} {k : ℕ}
      (m : Room rk es r k es') where
    abbrev filled : Entry F
    filled = fill_entry rk key r dbid m.hole

    abbrev after : List (Entry F)
    after = m.pre ++ (filled ∷ (m.post ++ m.free))

    abbrev after_bufs : ℕ → Sds
    after_bufs = fill_bufs bufs key m.hole.cached

    filled-eq : modify k (fill_entry rk key r dbid) es' ≡ after
    filled-eq =
        ap₂ (λ n l. modify n (fill_entry rk key r dbid) l) m.place m.parts
        ∙ modify-append (fill_entry rk key r dbid) m.pre m.hole (m.post ++ m.free)

    cached-eq : cached_at es' k ≡ m.hole.cached
    cached-eq =
        ap₂ cached_at m.parts m.place
        ∙ ap cached_of (get_elem?-append m.pre m.hole (m.post ++ m.free))

    filled-item : item rk after_bufs filled ≡ (r, dbid, key)
    filled-item =
        rw (rk.rank-put, rk.dbid-put, rk.key-put)
          (ap (λ n. (r, dbid, n)) (key_for-name bufs key m.hole.cached))

    same_buffers : buffers after ≡ buffers (m.pre ++ (m.hole ∷ (m.post ++ m.free)))
    same_buffers =
        map-append (λ e. e.cached) m.pre (filled ∷ (m.post ++ m.free))
        ∙ ap (λ c. buffers m.pre ++ (c ∷ buffers (m.post ++ m.free))) (rk.cached-put _ _)
        ∙ sym (map-append (λ e. e.cached) m.pre (m.hole ∷ (m.post ++ m.free)))

    filled-Live : Live filled
    filled-Live = rw rk.key-put (key_for-live bufs key m.hole.cached)

    after-Live : All Live (m.pre ++ (filled ∷ m.post))
    after-Live = All-append Live m.pre (filled ∷ m.post) m.pre_live (filled-Live, m.post_live)

    after_split : after ≡ (m.pre ++ (filled ∷ m.post)) ++ m.free
    after_split = sym (append_assoc m.pre (filled ∷ m.post) m.free)

    after-IsPacked : IsPacked after
    after-IsPacked = record {
      live = m.pre ++ (filled ∷ m.post);
      free = m.free;
      split = after_split;
      all_live = after-Live;
      all_free = m.all_free;
      full = omega (
        arith,
        m.full,
        ap length m.parts,
        length-append m.pre (filled ∷ (m.post ++ m.free)),
        length-append m.pre (m.hole ∷ (m.post ++ m.free)),
      );
      owned =
          All-append Owned m.pre (filled ∷ (m.post ++ m.free))
            (All-left Owned m.pre (m.post ++ m.free) m.owned)
            (
              rw (rk.key-put, rk.cached-put) (key_for-owned bufs key m.hole.cached),
              All-right Owned m.pre (m.post ++ m.free) m.owned,
            );
      distinct = rw same_buffers m.distinct;
    }

    others :
        (l : List (Entry F))
        → All Owned l
        → All (λ j. j ≢ m.hole.cached) (buffers l)
        → map (item rk after_bufs) l ≡ map (item rk bufs) l
    others = item-other rk bufs m.hole.cached after_bufs (fill_bufs-other bufs key m.hole.cached)

    after-contents :
        contents rk after_bufs after
        ≡ map (item rk bufs) m.pre ++ ((r, dbid, key) ∷ map (item rk bufs) m.post)
    after-contents =
        let (fresh, apart) = buffers-pull m.pre m.hole (m.post ++ m.free) m.distinct in
        let fresh' = rw map-append at fresh in
        let owned = All-right Owned m.pre (m.post ++ m.free) m.owned in
        let behind = All-right (λ j. j ≢ m.hole.cached) (buffers m.pre) _ fresh' in
        let behind' = rw map-append at behind in
        ap (contents rk after_bufs) after_split
        ∙ contents-Live rk after_bufs (m.pre ++ (filled ∷ m.post)) m.free after-Live m.all_free
        ∙ map-append (item rk after_bufs) m.pre (filled ∷ m.post)
        ∙ ap₂ ◌++◌
            (others m.pre (All-left Owned m.pre (m.post ++ m.free) m.owned)
              (All-left (λ j. j ≢ m.hole.cached) (buffers m.pre) _ fresh'))
            (ap₂ ◌∷◌ filled-item (
              others m.post (All-left Owned m.post m.free owned)
                (All-left (λ j. j ≢ m.hole.cached) (buffers m.post) _ behind')))

  -- What the pool holds for eviction.
  abbrev pub pool_contents : Pool F → List (Item R)
  pool_contents p = contents rk p.bufs p.entries

  -- The insertion of a candidate keeps the pool's invariant (sixteen entries, the occupied ones
  -- first, every entry with a buffer of its own that holds its key or nothing, no buffer written
  -- past its 255 bytes), and the candidates of the pool become those of the bounded insertion, in
  -- its order.
  pub insert_candidate-refines :
      (p : Pool F) (key : Sds) (r : R) (dbid : ℕ)
      → IsPool p
      → IsPool (insert_candidate rk p key r dbid)
        × (pool_contents (insert_candidate rk p key r dbid)
            ≡ bounded_insert lt (r, dbid, key) (pool_contents p))
  unfolding insert_candidate
  insert_candidate-refines p key r dbid v = settle (outcome p.entries r v.packed)
    where
      settle :
          Outcome rk p.entries r
          → IsPool (insert_candidate rk p key r dbid)
            × (pool_contents (insert_candidate rk p key r dbid)
                ≡ bounded_insert lt (r, dbid, key) (pool_contents p))
      settle (skipped e spec) = rw (e, insert_candidate) (v, sym (spec p.bufs dbid key))
      settle (placed k es' m e spec) =
          rw (e, insert_candidate, filled-eq p.bufs key r dbid m, cached-eq p.bufs key r dbid m)
            (
              record {
                packed = after-IsPacked p.bufs key r dbid m;
                fits = fill_bufs-fits p.bufs key m.hole.cached v.fits;
              },
              after-contents p.bufs key r dbid m ∙ sym (spec p.bufs dbid key),
            )
