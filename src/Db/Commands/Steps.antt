-- ===== src/Db/Commands/Steps.antt =====
-- Databases as the operations of db.c and the eviction lead from one to the next.
use red_opt.Base.{ℕ, ◌≡◌, inl, inr, List, []}
use red_opt.Base.{
  Bool, true, false, Option, none, some, ◌>>=◌, >>=-eq-some, Bool-cases, Option-cases,
}
use mathlib.Core.Path.{subst}
use red_opt.Server.{Server}
use red_opt.Double.{Double}
use red_opt.Object.{Robj, incr_ref_count, decr_ref_count, Released, freed, kept}
use red_opt.Pool.{Sds}
use red_opt.Dict.{DictApi}
use red_opt.Db.{
  Context, LookupFlags, SetFlags, KeySpace, remove_expire, set_expire, db_generic_delete,
  expire_if_needed, lookup_key,
}
use red_opt.Db.{
  added, db_add_internal, db_set_value, write_key, finish_set, retain_value, set_key,
  lookup_key_write, lookup_write,
}
use red_opt.Db.Timed.{
  IsTimed, set_expire-IsTimed, remove_expire-IsTimed, delete-IsTimed, expire-IsTimed, put-IsTimed,
  lookup-IsTimed, set_value-IsTimed,
}
use red_opt.Db.Commands.{release_value, del_generic_command}
use red_opt.Db.Commands.Delete.{del_generic_command-among}

module _ (keys : DictApi Robj) (times : DictApi ℕ) (d : Double) (s : Server) where
  -- One operation, for any client and at any time; the reference of a value that the caller counts
  -- is an operation of its own.
  pub data Step : KeySpace keys times → KeySpace keys times → Type 0 where
    step_lookup :
        (c : Context) (db : KeySpace keys times) (key : Sds) (flags : LookupFlags)
        → Step db (lookup_key keys times d s c db key flags).1
    step_expire :
        (c : Context) (db : KeySpace keys times) (key : Sds) (force avoid : Bool)
        → Step db (expire_if_needed keys times s c db key force avoid).1
    step_add :
        (db db' : KeySpace keys times) (key : Sds) (val : Robj) (update : Bool)
        → db_add_internal keys times d s db key val update ≡ some db'
        → Step db db'
    step_overwrite :
        (db db' : KeySpace keys times) (key : Sds) (val : Robj) (overwrite : Bool)
        → db_set_value keys times d db key val overwrite ≡ some db'
        → Step db db'
    step_set_expire :
        (db db' : KeySpace keys times) (key : Sds) (when : ℕ)
        → set_expire keys times db key when ≡ some db'
        → Step db db'
    step_persist :
        (db : KeySpace keys times) (key : Sds) → Step db (remove_expire keys times db key)
    step_delete :
        (db : KeySpace keys times) (key : Sds) → Step db (db_generic_delete keys times db key).1
    step_retain :
        (db db' : KeySpace keys times) (key : Sds)
        → retain_value keys times d db key ≡ some db'
        → Step db db'
    step_release :
        (db db' : KeySpace keys times) (key : Sds)
        → release_value keys times d db key ≡ some db'
        → Step db db'
    step_set :
        (c : Context) (db db' : KeySpace keys times) (key : Sds) (val : Robj) (flags : SetFlags)
        → set_key keys times d s c db key val flags ≡ some db'
        → Step db db'
    step_del :
        (c : Context) (db : KeySpace keys times) (args : List Sds)
        → Step db (del_generic_command keys times s c db args).db

  -- Operations one after another.
  pub data Reaches : KeySpace keys times → KeySpace keys times → Type 0 where
    stays : (db : KeySpace keys times) → Reaches db db
    goes : (db mid db' : KeySpace keys times) → Step db mid → Reaches mid db' → Reaches db db'

  add-IsTimed :
      (db : KeySpace keys times) (key : Sds) (val : Robj) (update : Bool)
      {db' : KeySpace keys times}
      → db_add_internal keys times d s db key val update ≡ some db'
      → IsTimed keys times d db
      → IsTimed keys times d db'
  unfolding db_add_internal
  add-IsTimed db key val update {db'} e v = elim (Option-cases (keys.find db.dict key)) [
    | inl absent ↦
        let e' = rw (absent, db_add_internal) at e in
        let same : added keys times d s db key val ≡ db' = cc in
        subst (IsTimed keys times d) same (put-IsTimed keys times d db key _ v)
    | inr (old, there) ↦ elim (Bool-cases update) [
      | inl may ↦
          set_value-IsTimed keys times d db key val true (rw (there, db_add_internal, may) at e) v
      | inr must_not ↦ let e' = rw (there, db_add_internal, must_not) at e in absurd cc
    ]
  ]

  retain-IsTimed :
      (db : KeySpace keys times) (key : Sds) {db' : KeySpace keys times}
      → retain_value keys times d db key ≡ some db'
      → IsTimed keys times d db
      → IsTimed keys times d db'
  unfolding retain_value
  retain-IsTimed db key {db'} e v =
      let (o, e1, k1) = >>=-eq-some (keys.find db.dict key) _ e in
      let (o', e2, k2) = >>=-eq-some (incr_ref_count o) _ k1 in
      let same : record db { dict = keys.put db.dict key o' } ≡ db' = cc in
      subst (IsTimed keys times d) same (put-IsTimed keys times d db key o' v)

  release-IsTimed :
      (db : KeySpace keys times) (key : Sds) {db' : KeySpace keys times}
      → release_value keys times d db key ≡ some db'
      → IsTimed keys times d db
      → IsTimed keys times d db'
  unfolding release_value
  release-IsTimed db key {db'} e v =
      let (o, e1, k1) = >>=-eq-some (keys.find db.dict key) _ e in
      let (released, e2, k2) = >>=-eq-some (decr_ref_count o) _ k1 in after released k2
    where
      after :
          (released : Released)
          → (elim released [
            | freed ↦ none
            | kept o' ↦ some (record db { dict = keys.put db.dict key o' })
          ])
            ≡ some db'
          → IsTimed keys times d db'
      after freed k = absurd cc
      after (kept o') k =
          let same : record db { dict = keys.put db.dict key o' } ≡ db' = cc in
          subst (IsTimed keys times d) same (put-IsTimed keys times d db key o' v)

  write-IsTimed :
      (db : KeySpace keys times) (key : Sds) (val : Robj) (keyfound : Bool)
      {db' : KeySpace keys times}
      → write_key keys times d s db key val keyfound ≡ some db'
      → IsTimed keys times d db
      → IsTimed keys times d db'
  unfolding write_key
  write-IsTimed db key val true e v = set_value-IsTimed keys times d db key val true e v
  write-IsTimed db key val false e v = add-IsTimed db key val false e v

  finish-IsTimed :
      (db : KeySpace keys times) (key : Sds) (flags : SetFlags)
      → IsTimed keys times d db
      → IsTimed keys times d (finish_set keys times d db key flags)
  unfolding finish_set
  finish-IsTimed db key flags v = elim (Bool-cases flags.keepttl) [
    | inl keep ↦ elim (Bool-cases flags.no_signal) [
      | inl quiet ↦ rw (keep, quiet, finish_set) v
      | inr told ↦ rw (keep, told, finish_set) v
    ]
    | inr reset ↦ elim (Bool-cases flags.no_signal) [
      | inl quiet ↦ rw (reset, quiet, finish_set) (remove_expire-IsTimed keys times d db key v)
      | inr told ↦ rw (reset, told, finish_set) (remove_expire-IsTimed keys times d db key v)
    ]
  ]

  set-IsTimed :
      (c : Context) (db : KeySpace keys times) (key : Sds) (val : Robj) (flags : SetFlags)
      {db' : KeySpace keys times}
      → set_key keys times d s c db key val flags ≡ some db'
      → IsTimed keys times d db
      → IsTimed keys times d db'
  unfolding set_key lookup_key_write
  set-IsTimed c db key val flags {db'} e v =
      let looked = lookup_key keys times d s c db key lookup_write in
      let v' : IsTimed keys times d looked.1 =
        lookup-IsTimed keys times d s c db key lookup_write v in
      elim (Bool-cases flags.already_exist) [
        | inl there ↦ stored (λ w h. write-IsTimed db key val true h v) (simp there at e)
        | inr unknown ↦ elim (Bool-cases flags.add_or_update) [
          | inl either ↦
              stored (λ w h. add-IsTimed db key val true h v) (simp (unknown, either) at e)
          | inr one ↦ elim (Bool-cases flags.doesnt_exist) [
            | inl absent ↦
                stored (λ w h. write-IsTimed db key val false h v)
                  (simp (unknown, one, absent) at e)
            | inr ask ↦ elim (Option-cases looked.0) [
              | inl missing ↦
                  stored (λ w h. write-IsTimed looked.1 key val false h v')
                    (simp (unknown, one, ask, missing) at e)
              | inr (o, found) ↦
                  stored (λ w h. write-IsTimed looked.1 key val true h v')
                    (simp (unknown, one, ask, found) at e)
            ]
          ]
        ]
      ]
    where
      stored :
          {out : Option (KeySpace keys times)}
          → ((wrote : KeySpace keys times) → out ≡ some wrote → IsTimed keys times d wrote)
          → (out >>= λ wrote. retain_value keys times d wrote key >>= λ counted.
              some (finish_set keys times d counted key flags))
            ≡ some db'
          → IsTimed keys times d db'
      stored {out} timed h =
          let (wrote, e1, k1) = >>=-eq-some out _ h in
          let (counted, e2, k2) = >>=-eq-some (retain_value keys times d wrote key) _ k1 in
          let same : finish_set keys times d counted key flags ≡ db' = cc in
          subst (IsTimed keys times d) same
            (finish-IsTimed counted key flags (retain-IsTimed wrote key e2 (timed wrote e1)))

  Step-IsTimed :
      {db db' : KeySpace keys times}
      → Step db db'
      → IsTimed keys times d db
      → IsTimed keys times d db'
  Step-IsTimed (step_lookup c db key flags) v = lookup-IsTimed keys times d s c db key flags v
  Step-IsTimed (step_expire c db key force avoid) v =
      expire-IsTimed keys times d s c db key force avoid v
  Step-IsTimed (step_add db db' key val update e) v = add-IsTimed db key val update e v
  Step-IsTimed (step_overwrite db db' key val overwrite e) v =
      set_value-IsTimed keys times d db key val overwrite e v
  Step-IsTimed (step_set_expire db db' key when e) v =
      set_expire-IsTimed keys times d db key when e v
  Step-IsTimed (step_persist db key) v = remove_expire-IsTimed keys times d db key v
  Step-IsTimed (step_delete db key) v = delete-IsTimed keys times d db key v
  Step-IsTimed (step_retain db db' key e) v = retain-IsTimed db key e v
  Step-IsTimed (step_release db db' key e) v = release-IsTimed db key e v
  Step-IsTimed (step_set c db db' key val flags e) v = set-IsTimed c db key val flags e v
  Step-IsTimed (step_del c db args) v = (del_generic_command-among keys times d s c db args [] v).4

  -- Whatever operations lead from one state of a database to another (lookups, additions,
  -- overwrites, SET, DEL, times that are set, removed or run out, with any flags, for any clients),
  -- where every key with a time had a value it still has one.
  pub Reaches-IsTimed :
      {db db' : KeySpace keys times}
      → Reaches db db'
      → IsTimed keys times d db
      → IsTimed keys times d db'
  Reaches-IsTimed (stays db) v = v
  Reaches-IsTimed (goes db mid db' step rest) v = Reaches-IsTimed rest (Step-IsTimed step v)
