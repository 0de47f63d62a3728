-- ===== src/Db/Flush.antt =====
-- The emptying of databases (db.c): `emptyDbStructure` and `dbTotalServerKeyCount`. The fields
-- `avg_ttl` and `expires_cursor` are left out, and the callback that reports progress.
-- `emptyDbAsync` (lazyfree.c), which is not part of the repository, is a parameter: it gives a
-- database new dictionaries and leaves the old ones to another thread.
use red_opt.Base.{
  ℕ, zero, suc, ◌+◌, ◌≡◌, refl, sym, ap, ◌∙◌, List, [], ◌∷◌, ◌++◌, map, Option, none, some, Bool,
  true, false, if◌then◌else◌,
}
use red_opt.Base.{
  get_elem?, get_elem?-append, modify, modify-append, length, length-append, length-map, ◌>>=◌,
  >>=-some, arith,
}
use mathlib.Core.List.{append_assoc}
use red_opt.Object.{Robj}
use red_opt.Dict.{DictApi}
use red_opt.Db.{KeySpace}

module _ (keys : DictApi Robj) (times : DictApi ℕ) where
  unfoldable pub db_total_server_key_count : List (KeySpace keys times) → ℕ
  db_total_server_key_count [] = 0
  db_total_server_key_count (db ∷ dbs) = keys.size db.dict + db_total_server_key_count dbs

module _ (keys : DictApi Robj) (times : DictApi ℕ)
    (empty_db_async : KeySpace keys times → KeySpace keys times) where
  abbrev pub emptied : Bool → KeySpace keys times → KeySpace keys times
  emptied is_async db =
      if is_async then empty_db_async db else record db { dict = keys.empty; expires = times.empty }

  -- The loop from database `j` on, with the rounds left. `none` is a read outside the array.
  unfoldable pub empty_dbs :
      ℕ → ℕ → ℕ → Bool → List (KeySpace keys times) → Option (ℕ × List (KeySpace keys times))
  empty_dbs zero j removed is_async dbs = some (removed, dbs)
  empty_dbs (suc n) j removed is_async dbs = get_elem? dbs j >>= λ db.
      empty_dbs n (j + 1) (removed + keys.size db.dict) is_async (modify j (emptied is_async) dbs)

  -- `dbnum` is `none` for -1.
  unfoldable pub empty_db_structure :
      List (KeySpace keys times) → Option ℕ → Bool → Option (ℕ × List (KeySpace keys times))
  empty_db_structure dbarray none is_async = empty_dbs (length dbarray) 0 0 is_async dbarray
  empty_db_structure dbarray (some dbnum) is_async = empty_dbs 1 dbnum 0 is_async dbarray

  empty_dbs-suffix :
      (is_async : Bool) (xs ys : List (KeySpace keys times)) (removed : ℕ)
      → empty_dbs (length ys) (length xs) removed is_async (xs ++ ys)
        ≡ some (removed + db_total_server_key_count keys times ys, xs ++ map (emptied is_async) ys)
  unfolding empty_dbs db_total_server_key_count
  empty_dbs-suffix is_async xs [] removed = ap (λ n. some (n, xs ++ [])) (omega arith)
  empty_dbs-suffix is_async xs (y ∷ ys) removed =
      let one : length xs + 1 ≡ length (xs ++ (emptied is_async y ∷ [])) =
        omega (arith, length-append xs (emptied is_async y ∷ [])) in
      let moved : modify (length xs) (emptied is_async) (xs ++ (y ∷ ys))
          ≡ (xs ++ (emptied is_async y ∷ [])) ++ ys =
        modify-append (emptied is_async) xs y ys
        ∙ sym (append_assoc xs (emptied is_async y ∷ []) ys) in
      let sum : removed + keys.size y.dict + db_total_server_key_count keys times ys
          ≡ removed + (keys.size y.dict + db_total_server_key_count keys times ys) =
        omega arith in
      >>=-some _ (get_elem?-append xs y ys) (
        rw
          (
            moved,
            one,
            empty_dbs-suffix is_async (xs ++ (emptied is_async y ∷ [])) ys
                (removed + keys.size y.dict),
            sum,
          )
          (ap
            (λ l. some (removed + (keys.size y.dict + db_total_server_key_count keys times ys), l))
            (append_assoc xs (emptied is_async y ∷ []) (map (emptied is_async) ys))))

  -- What `emptyDbAsync` leaves has no keys.
  abbrev pub LeavesNone : Type 0
  LeavesNone = (db : KeySpace keys times) → keys.size (empty_db_async db).dict ≡ 0

  size-emptied :
      LeavesNone
      → (is_async : Bool) (db : KeySpace keys times) → keys.size (emptied is_async db).dict ≡ 0
  size-emptied leaves true db = leaves db
  size-emptied leaves false db = keys.size-empty

  total-emptied :
      LeavesNone
      → (is_async : Bool) (dbs : List (KeySpace keys times))
      → db_total_server_key_count keys times (map (emptied is_async) dbs) ≡ 0
  unfolding db_total_server_key_count
  total-emptied leaves is_async [] = refl
  total-emptied leaves is_async (db ∷ dbs) =
      omega (arith, size-emptied leaves is_async db, total-emptied leaves is_async dbs)

  -- `emptyDbStructure` of all databases, in this thread or by `emptyDbAsync`, which leaves no keys,
  -- returns the number of keys that they had, by `dbTotalServerKeyCount`; it leaves as many
  -- databases, without any keys.
  pub empty_db_structure-total :
      LeavesNone
      → (is_async : Bool) (dbarray : List (KeySpace keys times))
      → (dbs : List (KeySpace keys times)) × (empty_db_structure dbarray none is_async
          ≡ some (db_total_server_key_count keys times dbarray, dbs))
        × (length dbs ≡ length dbarray)
        × (db_total_server_key_count keys times dbs ≡ 0)
  unfolding empty_db_structure
  empty_db_structure-total leaves is_async dbarray =
      let no_more : 0 + db_total_server_key_count keys times dbarray
          ≡ db_total_server_key_count keys times dbarray =
        omega arith in
      (
        map (emptied is_async) dbarray,
        empty_dbs-suffix is_async [] dbarray 0
            ∙ ap (λ n. some (n, map (emptied is_async) dbarray)) no_more,
        length-map (emptied is_async) dbarray,
        total-emptied leaves is_async dbarray,
      )
