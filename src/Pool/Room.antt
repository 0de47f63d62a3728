-- ===== src/Pool/Room.antt =====
-- Where `make_room` puts a candidate, and that it moves the other entries with their buffers.
use red_opt.Base.{ℕ, suc, ◌+◌, ◌-◌, ◌<◌, ◌≡◌, refl, ap, List, [], ◌∷◌, ◌++◌}
use red_opt.Base.{true, false, All, Distinct, length, arith}
use red_opt.Base.{Bool-cases, map, inl, inr, none, some}
use red_opt.Base.{modify, memmove}
use red_opt.Pool.{
  Sds, Entry, Ranking, pool_size, find_slot, make_room, null_at, cached_at, set_cached,
}
use red_opt.Pool.Spec.{contents, item, insert_sorted, bounded_insert}
use red_opt.Pool.Shape.{Live, Free, Owned, buffers}

module _ {F : Type 0} (rk : Ranking F) where
  open rk use {R, rank, lt}

  -- The loop stops behind the occupied entries that rank lower.
  pub record Slot (live free : List (Entry F)) (r : R) : Type 0 where
    pub pre : List (Entry F)
    pub post : List (Entry F)
    pub parts : live ≡ pre ++ post
    pub place : find_slot rk (live ++ free) r ≡ length pre
    pub sorted :
        (bufs : ℕ → Sds) (dbid : ℕ) (key : Sds)
        → insert_sorted lt (r, dbid, key) (map (item rk bufs) live)
          ≡ map (item rk bufs) pre ++ ((r, dbid, key) ∷ map (item rk bufs) post)

  pub slot : (live free : List (Entry F)) (r : R) → All Live live → All Free free → Slot live free r
  unfolding find_slot insert_sorted
  slot [] [] r h k = record {
    pre = [];
    post = [];
    parts = refl;
    place = refl;
    sorted = λ bufs dbid key. refl;
  }
  slot [] (f ∷ free) r h k = record {
    pre = [];
    post = [];
    parts = refl;
    place = rw k.0;
    sorted = λ bufs dbid key. refl;
  }
  slot (e ∷ live) free r h k = elim (Bool-cases (lt (rank e) r)) [
    | inl lower ↦
        let s = slot live free r h.1 k in
        record {
          pre = e ∷ s.pre;
          post = s.post;
          parts = ap (◌∷◌ e) s.parts;
          place = rw (h.0, lower) (ap suc s.place);
          sorted = λ bufs dbid key. rw lower (ap (◌∷◌ (item rk bufs e)) (s.sorted bufs dbid key));
        }
    | inr here ↦ record {
      pre = [];
      post = e ∷ live;
      parts = refl;
      place = rw (h.0, here);
      sorted = λ bufs dbid key. rw here;
    }
  ]

  -- The four ways out of `make_room`.
  module _ (es : List (Entry F)) (r : R) (k : ℕ) (place : find_slot rk es r ≡ k) where
    pub room_skip : k ≡ 0 → null_at es 15 ≡ false → make_room rk es r ≡ none
    unfolding make_room
    room_skip e n = rw (place, e, n)

    pub room_free :
        null_at es 15 ≡ true → k < 16 → null_at es k ≡ true → make_room rk es r ≡ some (k, es)
    unfolding make_room
    room_free n h f = rw (place, n, f) (ground arith)

    pub room_right :
        null_at es 15 ≡ true
        → null_at es k ≡ false
        → make_room rk es r
          ≡ some (k, modify k (set_cached (cached_at es 15)) (memmove (k + 1) k (16 - k - 1) es))
    unfolding make_room
    room_right n f = rw (place, n, f) (ground arith)

    pub room_left :
        0 < k
        → null_at es 15 ≡ false
        → null_at es k ≡ false
        → make_room rk es r
          ≡ some (k - 1, modify (k - 1) (set_cached (cached_at es 0)) (memmove 0 1 (k - 1) es))
    unfolding make_room
    room_left h n f = rw (place, n, f) (ground arith)

  -- The pool with a place for a candidate of rank `r`.
  pub record Room (es : List (Entry F)) (r : R) (k : ℕ) (es' : List (Entry F)) : Type 0 where
    pub pre : List (Entry F)
    pub post : List (Entry F)
    pub free : List (Entry F)
    pub hole : Entry F
    pub parts : es' ≡ pre ++ (hole ∷ (post ++ free))
    pub place : k ≡ length pre
    pub full : length es' ≡ pool_size
    pub pre_live : All Live pre
    pub post_live : All Live post
    pub all_free : All Free free
    pub owned : All Owned (pre ++ (post ++ free))
    pub distinct : Distinct (buffers (pre ++ (hole ∷ (post ++ free))))

  -- What `make_room` does, against the bounded insertion.
  pub data Outcome (es : List (Entry F)) (r : R) : Type 0 where
    skipped :
        make_room rk es r ≡ none
        → ((bufs : ℕ → Sds) (dbid : ℕ) (key : Sds)
            → bounded_insert lt (r, dbid, key) (contents rk bufs es) ≡ contents rk bufs es)
        → Outcome es r
    placed :
        (k : ℕ) (es' : List (Entry F)) (m : Room es r k es')
        → make_room rk es r ≡ some (k, es')
        → ((bufs : ℕ → Sds) (dbid : ℕ) (key : Sds)
            → bounded_insert lt (r, dbid, key) (contents rk bufs es)
              ≡ map (item rk bufs) m.pre ++ ((r, dbid, key) ∷ map (item rk bufs) m.post))
        → Outcome es r
