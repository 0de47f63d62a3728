-- ===== src/Db/Commands/Delete.antt =====
-- DEL and UNLINK over all their keys (db.c).
use red_opt.Base.{ℕ, suc, ◌≡◌, ◌∙◌, sym, ap, refl, inl, inr, List, [], ◌∷◌}
use red_opt.Base.{Bool, true, false, ◌||◌, none, Bool-cases, arith, if◌then◌else◌}
use mathlib.Core.Path.{subst}
use red_opt.Server.{Server}
use red_opt.Double.{Double}
use red_opt.Object.{Robj}
use red_opt.Pool.{Sds}
use red_opt.Dict.{DictApi, sds_eq, sds_eq_iff}
use red_opt.Db.{
  Context, KeySpace, expire_if_needed, db_generic_delete, delete_expired_key_and_propagate,
}
use red_opt.Db.{get_expire, expire_now, key_is_expired}
use red_opt.Db.Commands.{is_some}
use red_opt.Db.Lookup.{get_expire-find}
use red_opt.Db.Lookup.{db_generic_delete-find, expire_if_needed-cases}
use red_opt.Db.Timed.{IsTimed, expire-IsTimed, delete-IsTimed}
use red_opt.Db.Commands.{long_reply, del_key, del_keys, del_generic_command}

-- Whether the key is one of the arguments.
abbrev pub among : List Sds → Sds → Bool
among [] j = false
among (key ∷ args) j = sds_eq key j || among args j

-- How many keys of a list have a property, where a key that is there twice counts once.
pub count_once : (Sds → Bool) → List Sds → ℕ
count_once p [] = 0
count_once p (key ∷ args) =
    let rest = count_once (λ j. if sds_eq key j then false else p j) args in
    if p key then suc rest else rest

count_once-same :
    (p q : Sds → Bool) (args : List Sds)
    → ((j : Sds) → p j ≡ q j)
    → count_once p args ≡ count_once q args
unfolding count_once
count_once-same p q [] h = refl
count_once-same p q (key ∷ args) h =
    let rest =
      count_once-same (λ j. if sds_eq key j then false else p j)
        (λ j. if sds_eq key j then false else q j) args
        (λ j. ap (λ b. if sds_eq key j then false else b) (h j)) in
    rw (h key, rest) refl

module _ (keys : DictApi Robj) (times : DictApi ℕ) (d : Double) (s : Server) (c : Context) where
  -- Whether the key has a value after `expireIfNeeded`.
  abbrev pub outlasts : KeySpace keys times → Sds → Bool
  outlasts db j = is_some (keys.find (expire_if_needed keys times s c db j false false).1.dict j)

  expired-none :
      (db : KeySpace keys times) (j : Sds)
      → keys.find (delete_expired_key_and_propagate keys times c db j).dict j ≡ none
  unfolding delete_expired_key_and_propagate
  expired-none db j = elim (db_generic_delete-find keys times db j j) [
    | inl (absent, same) ↦ rw same absent
    | inr (there, found, time) ↦ found ∙ rw ((sds_eq_iff j j).1 refl)
  ]

  outlasts-agree :
      (db db' : KeySpace keys times) (j : Sds)
      → keys.find db'.dict j ≡ keys.find db.dict j
      → times.find db'.expires j ≡ times.find db.expires j
      → outlasts db' j ≡ outlasts db j
  unfolding expire_if_needed expire_now key_is_expired
  outlasts-agree db db' j value time =
      let same : get_expire keys times db' j ≡ get_expire keys times db j =
        get_expire-find keys times db' j ∙ time ∙ sym (get_expire-find keys times db j) in
      ground (arith, value, same, expired-none db j, expired-none db' j)

  outlasts-absent :
      (db : KeySpace keys times) (j : Sds) → keys.find db.dict j ≡ none → outlasts db j ≡ false
  outlasts-absent db j absent = elim (expire_if_needed-cases keys times s c db j false false) [
    | inl same ↦ rw (same, absent) refl
    | inr (inl same) ↦ rw (same, absent) refl
    | inr (inr gone) ↦ rw (gone, expired-none db j) refl
  ]

  del_key-counts :
      (db : KeySpace keys times) (key : Sds) → (del_key keys times s c db key).0 ≡ outlasts db key
  unfolding del_key db_generic_delete
  del_key-counts db key = ground arith

  -- What a deletion, or none, does to the value and the time of a key.
  abbrev pub Without : Bool → Sds → KeySpace keys times → KeySpace keys times → Type 0
  Without b j db db' =
      (keys.find db'.dict j ≡ (if b then none else keys.find db.dict j))
      × (times.find db'.expires j ≡ (if b then none else times.find db.expires j))

  pub delete-Without :
      (db : KeySpace keys times) (key j : Sds)
      → IsTimed keys times d db
      → Without (sds_eq key j) j db (db_generic_delete keys times db key).1
  delete-Without db key j v = elim (db_generic_delete-find keys times db key j) [
    | inr (there, found, time) ↦ (found, time)
    | inl (absent, same) ↦ elim (Bool-cases (sds_eq key j)) [
      | inr other ↦ rw (other, same) (refl, refl)
      | inl here ↦
          let eq : key ≡ j = (sds_eq_iff key j).0 here in
          let gone : keys.find db.dict j ≡ none = ap (keys.find db.dict) (sym eq) ∙ absent in
          rw (here, same) (gone, v j gone)
    ]
  ]

  Without-or :
      (b b' : Bool) (j : Sds) (x y z : KeySpace keys times)
      → Without b j x y
      → Without b' j y z
      → Without (b || b') j x z
  Without-or true true j x y z h k = k
  Without-or true false j x y z h k = (k.0 ∙ h.0, k.1 ∙ h.1)
  Without-or false true j x y z h k = k
  Without-or false false j x y z h k = (k.0 ∙ h.0, k.1 ∙ h.1)

  Without-twice :
      (b : Bool) (j : Sds) (x y z : KeySpace keys times)
      → Without b j x y
      → Without b j y z
      → Without b j x z
  Without-twice true j x y z h k = k
  Without-twice false j x y z h k = (k.0 ∙ h.0, k.1 ∙ h.1)

  del_key-Without :
      (db : KeySpace keys times) (key j : Sds)
      → IsTimed keys times d db
      → Without (sds_eq key j) j db (del_key keys times s c db key).1
  unfolding del_key delete_expired_key_and_propagate
  del_key-Without db key j v =
      let checked = expire_if_needed keys times s c db key false false in
      let gone_key = (db_generic_delete keys times checked.1 key).1 in
      let first : Without (sds_eq key j) j checked.1
          (db_generic_delete keys times checked.1 key).1 =
        delete-Without checked.1 key j (expire-IsTimed keys times d s c db key false false v) in
      let both : Without (sds_eq key j) j db (db_generic_delete keys times checked.1 key).1 =
        elim (expire_if_needed-cases keys times s c db key false false) [
          | inl same ↦
              subst (λ w. Without (sds_eq key j) j w gone_key) (ap (λ out. out.1) same) first
          | inr (inl same) ↦
              subst (λ w. Without (sds_eq key j) j w gone_key) (ap (λ out. out.1) same) first
          | inr (inr gone) ↦
              Without-twice (sds_eq key j) j db checked.1 gone_key
                (subst (λ out. Without (sds_eq key j) j db out.1) (sym gone)
                  (delete-Without db key j v))
                first
        ] in
      elim (Bool-cases (db_generic_delete keys times checked.1 key).0) [
        | inl deleted ↦ rw (deleted, del_key) both
        | inr absent ↦ rw (absent, del_key) both
      ]

  pub del_key-IsTimed :
      (db : KeySpace keys times) (key : Sds)
      → IsTimed keys times d db
      → IsTimed keys times d (del_key keys times s c db key).1
  unfolding del_key
  del_key-IsTimed db key v =
      let checked = expire_if_needed keys times s c db key false false in
      let kept =
        delete-IsTimed keys times d checked.1 key
          (expire-IsTimed keys times d s c db key false false v) in
      elim (Bool-cases (db_generic_delete keys times checked.1 key).0) [
        | inl deleted ↦ rw (deleted, del_key) kept
        | inr absent ↦ rw (absent, del_key) kept
      ]

  left :
      (db : KeySpace keys times) (key : Sds)
      → IsTimed keys times d db
      → (j : Sds)
      → outlasts (del_key keys times s c db key).1 j
        ≡ (if sds_eq key j then false else outlasts db j)
  left db key v j =
      let db' = (del_key keys times s c db key).1 in
      elim (Bool-cases (sds_eq key j)) [
        | inl here ↦
            let without = rw here at (del_key-Without db key j v) in
            rw here (outlasts-absent db' j without.0)
        | inr other ↦
            let without = rw other at (del_key-Without db key j v) in
            rw other (outlasts-agree db db' j without.0 without.1)
      ]

  pub del_keys-Without :
      (args : List Sds) (db : KeySpace keys times) (j : Sds)
      → IsTimed keys times d db
      → Without (among args j) j db (del_keys keys times s c db args).1
        × ((del_keys keys times s c db args).0 ≡ count_once (outlasts db) args)
        × IsTimed keys times d (del_keys keys times s c db args).1
  unfolding del_keys count_once
  del_keys-Without [] db j v = ((refl, refl), refl, v)
  del_keys-Without (key ∷ args) db j v =
      let mid = (del_key keys times s c db key).1 in
      let (rest, number, timed) = del_keys-Without args mid j (del_key-IsTimed db key v) in
      let end = (del_keys keys times s c mid args).1 in
      (
        Without-or (sds_eq key j) (among args j) j db mid end (del_key-Without db key j v) rest,
        rw (del_key-counts db key, number, count_once-same _ _ args (left db key v)) refl,
        timed,
      )

  -- DEL and UNLINK leave no value and no time of the keys they are given, whether these were there,
  -- had expired or are given twice, and every other key with its value and its time. The reply is
  -- the number of the keys given, each counted once, that had a value which `expireIfNeeded` would
  -- not have deleted, and `server.dirty` has grown by it. In the database a key with a time is one
  -- with a value, before and after.
  pub del_generic_command-among :
      (db : KeySpace keys times) (args : List Sds) (j : Sds)
      → IsTimed keys times d db
      → let out = del_generic_command keys times s c db args in
        (keys.find out.db.dict j ≡ (if among args j then none else keys.find db.dict j))
        × (times.find out.db.expires j ≡ (if among args j then none else times.find db.expires j))
        × (out.reply ≡ long_reply out.dirty)
        × (out.dirty ≡ count_once (outlasts db) args)
        × IsTimed keys times d out.db
  unfolding del_generic_command
  del_generic_command-among db args j v =
      let ((value, time), number, timed) = del_keys-Without args db j v in
      (value, time, refl, number, timed)
