-- ===== src/Pool/Place.antt =====
-- `make_room` against the bounded insertion, case by case.
use red_opt.Base.{ℕ, zero, suc, ◌+◌, ◌-◌, ◌≤◌, ◌<◌, ◌≡◌, refl, sym, ap, ◌∙◌, List, [], ◌∷◌, ◌++◌}
use red_opt.Base.{true, false, All, Distinct, length, arith, All-left, All-right}
use red_opt.Base.{All-append, map, some}
use red_opt.Base.{
  modify, memmove, get_elem?-All, drop, All-pull, modify-append, get_elem?-append, length-map,
  last_split, memmove_left, memmove_right, get_elem?-append_right, length-append,
}
use red_opt.Pool.{
  Sds, Entry, Ranking, pool_size, find_slot, null_at, cached_at, cached_of, set_cached,
}
use red_opt.Pool.Spec.{contents, item, insert_sorted, bounded_insert-room, bounded_insert-full}
use red_opt.Pool.Room.{Outcome, skipped, placed, room_skip, room_free, room_right, room_left}
use mathlib.Core.List.{append-nil, append_assoc}
use mathlib.Core.Path.{subst, ap₂}
use red_opt.Pool.Shape.{buffers-pull, buffers-push, Live, Free, Owned, buffers}

module _ {F : Type 0} (rk : Ranking F) where
  open rk use {R, rank, lt}

  null_at-Live : (es : List (Entry F)) (i : ℕ) → All Live es → null_at es i ≡ false
  null_at-Live [] i a = refl
  null_at-Live (x ∷ es) zero a = a.0
  null_at-Live (x ∷ es) (suc i) a = null_at-Live es i a.1

  null_at-Free :
      (xs fs : List (Entry F)) (i : ℕ)
      → length xs ≤ i
      → i < length (xs ++ fs)
      → All Free fs
      → null_at (xs ++ fs) i ≡ true
  null_at-Free xs fs i h k a =
      let (x, e, l) =
        get_elem?-All Free fs (i - length xs) (omega (arith, length-append xs fs)) a in
      rw (get_elem?-append_right xs fs i h, e, l)

  -- What is known when the loop has stopped behind `pre`.
  pub record Stopped (pre post free : List (Entry F)) (r : R) : Type 0 where
    pub place : find_slot rk (pre ++ (post ++ free)) r ≡ length pre
    pub pre_live : All Live pre
    pub post_live : All Live post
    pub all_free : All Free free
    pub full : length (pre ++ (post ++ free)) ≡ pool_size
    pub owned : All Owned (pre ++ (post ++ free))
    pub distinct : Distinct (buffers (pre ++ (post ++ free)))
    pub sorted :
        (bufs : ℕ → Sds) (dbid : ℕ) (key : Sds)
        → insert_sorted lt (r, dbid, key) (contents rk bufs (pre ++ (post ++ free)))
          ≡ map (item rk bufs) pre ++ ((r, dbid, key) ∷ map (item rk bufs) post)
    pub counted :
        (bufs : ℕ → Sds)
        → contents rk bufs (pre ++ (post ++ free)) ≡ map (item rk bufs) (pre ++ post)

  size :
      (pre post free : List (Entry F)) (r : R) (s : Stopped pre post free r) (bufs : ℕ → Sds)
      → length (contents rk bufs (pre ++ (post ++ free))) ≡ length pre + length post
  size pre post free r s bufs =
      ap length (s.counted bufs) ∙ length-map (item rk bufs) (pre ++ post) ∙ length-append pre post

  -- The slot is the first free entry.
  pub at_free :
      (pre : List (Entry F)) (f : Entry F) (fs : List (Entry F)) (r : R)
      → Stopped pre [] (f ∷ fs) r
      → Outcome rk (pre ++ (f ∷ fs)) r
  at_free pre f fs r s =
      let short : length pre + (length fs + 1) ≡ 16 =
        omega (arith, s.full, length-append pre (f ∷ fs)) in
      placed (length pre) (pre ++ (f ∷ fs))
        (record {
          pre = pre;
          post = [];
          free = fs;
          hole = f;
          parts = refl;
          place = refl;
          full = s.full;
          pre_live = s.pre_live;
          post_live = tt;
          all_free = s.all_free.1;
          owned = All-pull Owned pre f fs s.owned;
          distinct = s.distinct;
        })
        (room_free rk (pre ++ (f ∷ fs)) r (length pre) s.place
          (null_at-Free pre (f ∷ fs) 15 (omega arith) (omega (arith, s.full)) s.all_free)
          (omega arith) (rw get_elem?-append s.all_free.0))
        (λ bufs dbid key.
          bounded_insert-room lt _ _ (omega (arith, size pre [] (f ∷ fs) r s bufs))
          ∙ s.sorted bufs dbid key)

  -- Everything is occupied and the candidate ranks lowest.
  pub at_bottom : (post : List (Entry F)) (r : R) → Stopped [] post [] r → Outcome rk (post ++ []) r
  at_bottom post r s =
      let long : length post ≡ 16 = omega (arith, s.full, length-append post []) in
      skipped
        (room_skip rk (post ++ []) r 0 s.place refl
          (rw append-nil (null_at-Live post 15 s.post_live)))
        (λ bufs dbid key.
          bounded_insert-full lt _ _ (omega (arith, size [] post [] r s bufs))
          ∙ ap (drop 1) (s.sorted bufs dbid key)
          ∙ sym (s.counted bufs))

  -- Everything is occupied: the lowest entry makes way.
  pub at_left :
      (p : Entry F) (ps post : List (Entry F)) (r : R)
      → Stopped (p ∷ ps) post [] r
      → Outcome rk (p ∷ (ps ++ (post ++ []))) r
  at_left p ps post r s =
      let (qs, q, e, l) = last_split (p ∷ ps) (length ps) refl in
      let es = p ∷ (ps ++ (post ++ [])) in
      let long : length ps + 1 + length post ≡ 16 =
        omega (arith, s.full, length-append ps (post ++ []), length-append post []) in
      let live = All-append Live (p ∷ ps) post s.pre_live s.post_live in
      let all : All Live es = (live.0, rw append-nil live.1) in
      let moved = memmove_left p ps qs q (post ++ []) e in
      let hole = set_cached p.cached q in
      let (fresh, apart) = buffers-pull [] p (ps ++ (post ++ [])) s.distinct in
      placed (length ps) (ps ++ (hole ∷ (post ++ [])))
        (record {
          pre = ps;
          post = post;
          free = [];
          hole = hole;
          parts = refl;
          place = refl;
          full = omega (arith, length-append ps (hole ∷ (post ++ [])), length-append post []);
          pre_live = s.pre_live.1;
          post_live = s.post_live;
          all_free = tt;
          owned = s.owned.1;
          distinct = buffers-push ps hole (post ++ []) fresh apart;
        })
        (room_left rk es r (suc (length ps)) s.place (omega arith) (null_at-Live es 15 all)
            (null_at-Live es (suc (length ps)) all)
          ∙ ap (λ n. some (n, modify n (set_cached p.cached) (memmove 0 1 n es))) (omega arith)
          ∙ ap (λ l. some (length ps, l))
              (ap (modify (length ps) (set_cached p.cached)) moved
                ∙ modify-append (set_cached p.cached) ps q (post ++ [])))
        (λ bufs dbid key.
          bounded_insert-full lt _ _ (omega (arith, size (p ∷ ps) post [] r s bufs))
          ∙ ap (drop 1) (s.sorted bufs dbid key))

  -- An occupied entry, with free ones behind: they move to the right.
  pub at_right :
      (pre : List (Entry F)) (y : Entry F) (ys fs : List (Entry F)) (z : Entry F) (r : R)
      → Stopped pre (y ∷ ys) (fs ++ (z ∷ [])) r
      → Outcome rk (pre ++ (y ∷ (ys ++ (fs ++ (z ∷ []))))) r
  at_right pre y ys fs z r s =
      let es = pre ++ (y ∷ (ys ++ (fs ++ (z ∷ [])))) in
      let qs = ys ++ fs in
      let hole = set_cached z.cached y in
      let count : length pre + 1 + length qs + 1 ≡ 16 = omega (
        arith,
        s.full,
        length-append pre (y ∷ (ys ++ (fs ++ (z ∷ [])))),
        length-append ys (fs ++ (z ∷ [])),
        length-append fs (z ∷ []),
        length-append ys fs,
      ) in
      let e1 : es ≡ pre ++ (y ∷ (qs ++ (z ∷ []))) =
        ap (λ l. pre ++ (y ∷ l)) (sym (append_assoc ys fs (z ∷ []))) in
      let e2 : es ≡ (pre ++ (y ∷ qs)) ++ (z ∷ []) = e1 ∙ sym (append_assoc pre (y ∷ qs) (z ∷ [])) in
      let before : length (pre ++ (y ∷ qs)) ≡ 15 =
        omega (arith, count, length-append pre (y ∷ qs)) in
      let whole : length ((pre ++ (y ∷ qs)) ++ (z ∷ [])) ≡ 16 =
        omega (arith, before, length-append (pre ++ (y ∷ qs)) (z ∷ [])) in
      let last : cached_at es 15 ≡ z.cached =
        ap₂ cached_at e2 (sym before) ∙ ap cached_of (get_elem?-append (pre ++ (y ∷ qs)) z []) in
      let moved : memmove (length pre + 1) (length pre) (16 - length pre - 1) es
          ≡ pre ++ (y ∷ (y ∷ qs)) =
        ap₂ (memmove (length pre + 1) (length pre)) (omega arith) e1 ∙ memmove_right pre y qs z in
      let (fresh, apart) =
        buffers-pull (pre ++ (y ∷ qs)) z [] (subst (λ l. Distinct (buffers l)) e2 s.distinct) in
      placed (length pre) (pre ++ (hole ∷ (y ∷ qs)))
        (record {
          pre = pre;
          post = y ∷ ys;
          free = fs;
          hole = hole;
          parts = refl;
          place = refl;
          full = omega (arith, length-append pre (hole ∷ (y ∷ qs)));
          pre_live = s.pre_live;
          post_live = s.post_live;
          all_free = All-left Free fs (z ∷ []) s.all_free;
          owned = All-left Owned (pre ++ (y ∷ qs)) (z ∷ []) (subst (All Owned) e2 s.owned);
          distinct =
              buffers-push pre hole (y ∷ qs) (rw append-nil at fresh) (rw append-nil at apart);
        })
        (room_right rk es r (length pre) s.place
            (ap (λ l. null_at l 15) e2
              ∙ null_at-Free (pre ++ (y ∷ qs)) (z ∷ []) 15 (omega arith) (omega arith)
                  (All-right Free fs (z ∷ []) s.all_free))
            (rw get_elem?-append s.post_live.0)
          ∙ ap (λ l. some (length pre, l))
              (ap₂ (λ c l. modify (length pre) (set_cached c) l) last moved
                ∙ modify-append (set_cached z.cached) pre y (y ∷ qs)))
        (λ bufs dbid key.
          bounded_insert-room lt _ _
            (omega (arith, size pre (y ∷ ys) (fs ++ (z ∷ [])) r s bufs, count, length-append ys fs))
          ∙ s.sorted bufs dbid key)
