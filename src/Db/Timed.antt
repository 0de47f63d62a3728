-- ===== src/Db/Timed.antt =====
-- The two dictionaries of a database together: a key with a time is a key with a value (db.c).
use red_opt.Base.{ℕ, ◌≡◌, ◌∙◌, sym, ap, inl, inr, Bool, ◌||◌}
use red_opt.Base.{none, some, Option-cases, Bool-cases, arith}
use mathlib.Core.Path.{subst}
use red_opt.Server.{Server}
use red_opt.Double.{Double}
use red_opt.Object.{Robj}
use red_opt.Pool.{Sds}
use red_opt.Dict.{DictApi, sds_eq, sds_eq_iff}
use red_opt.Db.{Context, LookupFlags, KeySpace, remove_expire, set_expire, db_generic_delete}
use red_opt.Db.{
  delete_expired_key_and_propagate, expire_if_needed, touch_object, missed_key, lookup_key,
}
use red_opt.Db.{overwritten, db_set_value}
use red_opt.Db.Lookup.{db_generic_delete-find, expire_if_needed-cases, expiry, lookup_key-cases}

module _ (keys : DictApi Robj) (times : DictApi ℕ) (d : Double) where
  -- A key without a value has no time.
  abbrev pub IsTimed : KeySpace keys times → Type 0
  IsTimed db = (k : Sds) → keys.find db.dict k ≡ none → times.find db.expires k ≡ none

  put_hidden :
      (m : keys.Dict) (key : Sds) (v : Robj) (k : Sds)
      → keys.find (keys.put m key v) k ≡ none
      → keys.find m k ≡ none
  put_hidden m key v k h = ground (arith, keys.find-put m key v k)

  pub set_expire-IsTimed :
      (db : KeySpace keys times) (key : Sds) (when : ℕ) {db' : KeySpace keys times}
      → set_expire keys times db key when ≡ some db'
      → IsTimed db
      → IsTimed db'
  unfolding set_expire
  set_expire-IsTimed db key when {db'} e v = elim (Option-cases (keys.find db.dict key)) [
    | inl absent ↦ let e' = rw (absent, set_expire) at e in absurd cc
    | inr (o, there) ↦
        let e' = rw (there, set_expire) at e in
        let same : record db { expires = times.put db.expires key when } ≡ db' = cc in
        subst IsTimed same (λ k h.
          times.find-put db.expires key when k ∙ elim (Bool-cases (sds_eq key k)) [
            | inl here ↦
                let eq : key ≡ k = (sds_eq_iff key k).0 here in
                absurd (cc (ap (keys.find db.dict) eq))
            | inr other ↦ rw other (v k h)
          ])
  ]

  pub remove_expire-IsTimed :
      (db : KeySpace keys times) (key : Sds)
      → IsTimed db
      → IsTimed (remove_expire keys times db key)
  unfolding remove_expire
  remove_expire-IsTimed db key v k h = ground (arith, times.find-remove db.expires key k, v k h)

  pub delete-IsTimed :
      (db : KeySpace keys times) (key : Sds)
      → IsTimed db
      → IsTimed (db_generic_delete keys times db key).1
  delete-IsTimed db key v k h = elim (db_generic_delete-find keys times db key k) [
    | inl (absent, same) ↦
        ap (λ out. times.find out.1.expires k) same
        ∙ v k (ap (λ out. keys.find out.1.dict k) (sym same) ∙ h)
    | inr (there, found, time) ↦ time ∙ ground (arith, v k)
  ]

  pub expire-IsTimed :
      (s : Server) (c : Context) (db : KeySpace keys times) (key : Sds) (force avoid : Bool)
      → IsTimed db
      → IsTimed (expire_if_needed keys times s c db key force avoid).1
  unfolding delete_expired_key_and_propagate
  expire-IsTimed s c db key force avoid v =
      elim (expire_if_needed-cases keys times s c db key force avoid) [
        | inl same ↦ subst (λ out. IsTimed out.1) (sym same) v
        | inr (inl same) ↦ subst (λ out. IsTimed out.1) (sym same) v
        | inr (inr gone) ↦ subst (λ out. IsTimed out.1) (sym gone) (delete-IsTimed db key v)
      ]

  pub put-IsTimed :
      (db : KeySpace keys times) (key : Sds) (val : Robj)
      → IsTimed db
      → IsTimed (record db { dict = keys.put db.dict key val })
  put-IsTimed db key val v k h = v k (put_hidden db.dict key val k h)

  missed-IsTimed :
      (flags : LookupFlags) (key : Sds) (db : KeySpace keys times)
      → IsTimed db
      → IsTimed (missed_key keys times d flags key db).1
  missed-IsTimed flags key db v = elim (Bool-cases (flags.nonotify || flags.write)) [
    | inl quiet ↦ rw quiet v
    | inr told ↦ rw told v
  ]

  pub lookup-IsTimed :
      (s : Server) (c : Context) (db : KeySpace keys times) (key : Sds) (flags : LookupFlags)
      → IsTimed db
      → IsTimed (lookup_key keys times d s c db key flags).1
  lookup-IsTimed s c db key flags v = elim (lookup_key-cases keys times d s c db key flags) [
    | inl (absent, e) ↦ subst (λ out. IsTimed out.1) (sym e) (missed-IsTimed flags key db v)
    | inr (o, there, e) ↦
        let checked = expiry keys times d s c db key flags in
        let kept = expire-IsTimed s c db key _ flags.noexpire v in
        subst (λ out. IsTimed out.1) (sym e)
          (elim (Bool-cases checked.0) [
            | inl expired ↦ rw expired (missed-IsTimed flags key checked.1 kept)
            | inr fresh ↦
                rw fresh
                  (put-IsTimed checked.1 key (touch_object keys times d s c flags.notouch o) kept)
          ])
  ]

  pub set_value-IsTimed :
      (db : KeySpace keys times) (key : Sds) (val : Robj) (overwrite : Bool)
      {db' : KeySpace keys times}
      → db_set_value keys times d db key val overwrite ≡ some db'
      → IsTimed db
      → IsTimed db'
  unfolding db_set_value
  set_value-IsTimed db key val overwrite {db'} e v = elim (Option-cases (keys.find db.dict key)) [
    | inl absent ↦ let e' = rw (absent, db_set_value) at e in absurd cc
    | inr (old, there) ↦
        let e' = rw (there, db_set_value) at e in
        let same : overwritten keys times d db key val old overwrite ≡ db' = cc in
        subst IsTimed same (elim (Bool-cases overwrite) [
          | inl whole ↦ rw whole (put-IsTimed db key (record val { lru = old.lru }) v)
          | inr part ↦ rw part (put-IsTimed db key (record val { lru = old.lru }) v)
        ])
  ]
