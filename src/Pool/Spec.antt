-- ===== src/Pool/Spec.antt =====
-- What the pool stands for: its candidates in ascending order of rank, sixteen at most. Nothing
-- here speaks of places, buffers or moves.
use red_opt.Base.{ℕ, ◌+◌, ◌≡◌, ◌<◌, List, [], ◌∷◌, Bool}
use red_opt.Base.{length, drop, ltb, if◌then◌else◌, arith, lt→ltb}
use red_opt.Pool.{Sds, Entry, Ranking, is_null, name, pool_size}

-- A candidate: its rank, the number of its database, its key.
abbrev pub Item : Type 0 → Type 0
Item R = R × ℕ × Sds

module _ {R : Type 0} (lt : R → R → Bool) where
  -- Behind all candidates that rank lower.
  unfoldable pub insert_sorted : Item R → List (Item R) → List (Item R)
  insert_sorted c [] = c ∷ []
  insert_sorted c (x ∷ xs) =
      let later = x ∷ insert_sorted c xs in if lt x.0 c.0 then later else c ∷ (x ∷ xs)

  -- A full pool loses its lowest candidate, which may be the new one.
  unfoldable pub bounded_insert : Item R → List (Item R) → List (Item R)
  bounded_insert c xs =
      if ltb (length xs) pool_size then insert_sorted c xs else drop 1 (insert_sorted c xs)

  pub length-insert_sorted :
      (c : Item R) (xs : List (Item R)) → length (insert_sorted c xs) ≡ length xs + 1
  unfolding insert_sorted
  length-insert_sorted c [] = omega arith
  length-insert_sorted c (x ∷ xs) = ground (arith, length-insert_sorted c xs)

  pub bounded_insert-room :
      (c : Item R) (xs : List (Item R))
      → length xs < pool_size
      → bounded_insert c xs ≡ insert_sorted c xs
  unfolding bounded_insert
  bounded_insert-room c xs h = rw (lt→ltb (length xs) pool_size h)

  pub bounded_insert-full :
      (c : Item R) (xs : List (Item R))
      → length xs ≡ pool_size
      → bounded_insert c xs ≡ drop 1 (insert_sorted c xs)
  unfolding bounded_insert
  bounded_insert-full c xs h = rw h

module _ {F : Type 0} (rk : Ranking F) where
  open rk use {R, rank}

  abbrev pub item : (ℕ → Sds) → Entry F → Item R
  item bufs e = (rank e, e.dbid, name bufs e.key)

  unfoldable pub contents : (ℕ → Sds) → List (Entry F) → List (Item R)
  contents bufs [] = []
  contents bufs (e ∷ es) =
      if is_null e.key then contents bufs es else item bufs e ∷ contents bufs es
