-- ===== src/Db/Master.antt =====
-- The lookup for a write where a key whose time has passed is deleted: on a master that has not
-- paused expiry (db.c).
use red_opt.Base.{ℕ, ◌≡◌, ◌∙◌, sym, ◌⊎◌, refl, inl, inr, Bool, true, false, not, ◌&&◌, ◌||◌}
use red_opt.Base.{Option, none, some, Bool-cases, ltb, arith}
use mathlib.Core.Path.{subst}
use red_opt.Server.{Server, flag_lfu, flag_lru_histogram, history_size}
use red_opt.Double.{Double}
use red_opt.Object.{Robj, init_or_update_objectt, init_object_lru_or_lfu, update_lru_histogram}
use red_opt.Lfu.{update_lfu}
use red_opt.Pool.{Sds}
use red_opt.Dict.{DictApi, sds_eq, sds_eq_iff}
use red_opt.Db.{
  Context, KeySpace, lookup_write, expire_if_needed, expire_now, delete_expired_key_and_propagate,
}
use red_opt.Db.{touch_object, lookup_key_write}
use red_opt.Db.Lookup.{delete_present, lookup_key-cases}

pub sds_eq_refl : (k : Sds) → sds_eq k k ≡ true
sds_eq_refl k = (sds_eq_iff k k).1 refl

-- All but the access data.
abbrev pub SameValue : Robj → Robj → Type 0
SameValue a b =
    (b.kind ≡ a.kind) × (b.encoding ≡ a.encoding) × (b.ptr ≡ a.ptr) × (b.refcount ≡ a.refcount)

histogram-SameValue : (s : Server) (o : Robj) → SameValue o (update_lru_histogram s o)
unfolding update_lru_histogram
histogram-SameValue s o = elim (Bool-cases (ltb o.num_accesses history_size)) [
  | inl room ↦ rw (room, update_lru_histogram) (refl, refl, refl, refl)
  | inr full ↦ rw (full, update_lru_histogram) (refl, refl, refl, refl)
]

pub init-SameValue : (s : Server) (o : Robj) → SameValue o (init_object_lru_or_lfu s o)
unfolding init_object_lru_or_lfu init_or_update_objectt
init-SameValue s o = ground arith

module _ (keys : DictApi Robj) (times : DictApi ℕ) (d : Double) where
  touch-SameValue :
      (s : Server) (c : Context) (o : Robj) → SameValue o (touch_object keys times d s c false o)
  unfolding touch_object update_lfu
  touch-SameValue s c o = elim (Bool-cases (c.has_child || (false || c.no_touch))) [
    | inl untouched ↦ rw (untouched, touch_object) (refl, refl, refl, refl)
    | inr touched ↦ elim (Bool-cases (flag_lfu s.maxmemory_policy)) [
      | inl lfu ↦ rw (touched, lfu, touch_object) (refl, refl, refl, refl)
      | inr other ↦ elim (Bool-cases (flag_lru_histogram s.maxmemory_policy)) [
        | inl histogram ↦ rw (touched, other, histogram, touch_object) (histogram-SameValue s o)
        | inr plain ↦ rw (touched, other, plain, touch_object) (refl, refl, refl, refl)
      ]
    ]
  ]

module _ (keys : DictApi Robj) (times : DictApi ℕ) (d : Double) (s : Server) (c : Context)
    (db : KeySpace keys times) (key : Sds) where
  expires_or_not :
      s.masterhost ≡ false
      → c.paused_expire ≡ false
      → (force : Bool)
      → (expire_if_needed keys times s c db key force false ≡ (false, db))
        ⊎ (expire_if_needed keys times s c db key force false
            ≡ (true, delete_expired_key_and_propagate keys times c db key))
  unfolding expire_if_needed expire_now
  expires_or_not m p force = ground arith

  -- What a write finds: nothing, and then the key is not there; or the value, with its access
  -- recorded.
  abbrev pub Looked : Option Robj × KeySpace keys times → Type 0
  Looked out =
      ((out.0 ≡ none)
        × (keys.find out.1.dict key ≡ none)
        × ((j : Sds) → sds_eq key j ≡ false → times.find out.1.expires j ≡ times.find db.expires j))
      ⊎ ((v : Robj) × (o : Robj) × (out.0 ≡ some v)
          × (keys.find db.dict key ≡ some o)
          × SameValue o v
          × (keys.find out.1.dict key ≡ some v)
          × (out.1.expires ≡ db.expires))

  pub lookup_key_write-Looked :
      s.masterhost ≡ false
      → c.paused_expire ≡ false
      → Looked (lookup_key_write keys times d s c db key)
  unfolding lookup_key_write delete_expired_key_and_propagate
  lookup_key_write-Looked m p = elim (lookup_key-cases keys times d s c db key lookup_write) [
    | inl (absent, e) ↦ rw e (inl (refl, absent, λ j ne. refl))
    | inr (o, there, e) ↦
        subst Looked (sym e) (elim (expires_or_not m p (not (s.masterhost && s.repl_slave_ro))) [
          | inl same ↦ rw same (
              inr (
                touch_object keys times d s c false o,
                o,
                refl,
                there,
                touch-SameValue keys times d s c o,
                keys.find-put db.dict key _ key ∙ rw (sds_eq_refl key),
                refl,
              ))
          | inr gone ↦ rw gone (
              inl (
                refl,
                (delete_present keys times db key key o there).0 ∙ rw (sds_eq_refl key),
                λ j ne. (delete_present keys times db key j o there).1 ∙ rw ne,
              ))
        ])
  ]
