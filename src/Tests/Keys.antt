-- ===== src/Tests/Keys.antt =====
-- The theorems on the key space at concrete inputs.
use red_opt.Base.{
  ℕ, ◌+◌, ◌≡◌, ◌≢◌, ◌↔◌, refl, [], ◌∷◌, true, false, none, some, if◌then◌else◌, arith,
}
use red_opt.Object.{Robj}
use red_opt.Dict.{sds_eq}
use red_opt.Pool.{Sds}
use red_opt.Db.{Context, LookupFlags, KeySpace, expire_if_needed, lookup_key}
use red_opt.Db.Lookup.{expire_if_needed-expires, lookup_key-other, lookup_key-found, expiry}
use red_opt.Db.Calls.{db_random_key, random_rounds, Alive, db_random_key-Alive}
use red_opt.Tests.Doubles.{decimals}
use red_opt.Tests.Dicts.{assoc, assoc_find}
use red_opt.Tests.Samples.{server, twice_used, often_used}

-- Two keys, the first with a time.
abbrev pub key_a : Sds
key_a = 65 ∷ []

abbrev pub key_b : Sds
key_b = 66 ∷ []

abbrev pub key_space : KeySpace (assoc Robj) (assoc ℕ)
key_space = record {
  dict = (key_a, twice_used) ∷ (key_b, often_used) ∷ [];
  expires = (key_a, 500) ∷ [];
  stat_keyspace_hits = 0;
  stat_keyspace_misses = 0;
  stat_expiredkeys = 0;
  events = [];
}

abbrev pub context : Context
context = record {
  now = 600;
  client_master = false;
  no_touch = false;
  has_child = false;
  paused_expire = false;
  lazy_expire = false;
  rand = 5;
  rand_max = 100;
}

abbrev read_flags : LookupFlags
read_flags = record {
  notouch = false;
  nonotify = false;
  nostats = false;
  write = false;
  noexpire = false;
}

pub find_a : assoc_find key_space.dict key_a ≡ some twice_used
unfolding assoc_find sds_eq
find_a = refl

time_a : assoc_find key_space.expires key_a ≡ some 500
unfolding assoc_find sds_eq
time_a = refl

absent_c : assoc_find key_space.dict (67 ∷ []) ≡ none
unfolding assoc_find sds_eq
absent_c = refl

apart : sds_eq key_a key_b ≡ false
unfolding sds_eq
apart = refl

expire_if_needed-expires_example :
    let (expired, db') =
      expire_if_needed (assoc Robj) (assoc ℕ) server context key_space key_a false false in
    (expired ≡ true)
    × (assoc_find db'.dict key_b
        ≡ (if sds_eq key_a key_b then none else assoc_find key_space.dict key_b))
    × (assoc_find db'.expires key_b
        ≡ (if sds_eq key_a key_b then none else assoc_find key_space.expires key_b))
    × (db'.stat_expiredkeys ≡ 0 + 1)
expire_if_needed-expires_example =
    expire_if_needed-expires (assoc Robj) (assoc ℕ) server context key_space key_a key_b refl refl
      refl refl find_a time_a (omega arith)

lookup_key-other_example :
    let db' =
      (lookup_key (assoc Robj) (assoc ℕ) decimals server context key_space key_a read_flags).1 in
    (assoc_find db'.dict key_b ≡ assoc_find key_space.dict key_b)
    × (assoc_find db'.expires key_b ≡ assoc_find key_space.expires key_b)
lookup_key-other_example =
    lookup_key-other (assoc Robj) (assoc ℕ) decimals server context key_space key_a read_flags key_b
      apart

lookup_key-found_example :
    ((lookup_key (assoc Robj) (assoc ℕ) decimals server context key_space key_b read_flags).0
      ≢ none)
    ↔ ((assoc_find key_space.dict key_b ≢ none)
        × ((expiry (assoc Robj) (assoc ℕ) decimals server context key_space key_b read_flags).0
            ≡ false))
lookup_key-found_example =
    lookup_key-found (assoc Robj) (assoc ℕ) decimals server context key_space key_b read_flags

-- Key B has no time.
picked_b :
    db_random_key (assoc Robj) (assoc ℕ) decimals 1 (λ n m. some key_b) server context key_space
    ≡ some (some key_b, key_space)
unfolding db_random_key random_rounds assoc_find sds_eq
picked_b = refl

db_random_key-Alive_example : Alive (assoc Robj) (assoc ℕ) decimals context key_space key_b
db_random_key-Alive_example =
    db_random_key-Alive (assoc Robj) (assoc ℕ) decimals 1 (λ n m. some key_b) server context
      key_space refl refl refl picked_b
