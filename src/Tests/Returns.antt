-- ===== src/Tests/Returns.antt =====
-- The end of an eviction at a concrete input.
use red_opt.Base.{ℕ, ◌≤◌, ◌≡◌, ◌≢◌, refl, List, [], ◌∷◌, false, some, length, arith}
use red_opt.Server.{Server, allkeys_random}
use red_opt.Object.{Robj}
use red_opt.Dict.{sds_eq_iff}
use red_opt.Pool.{Sds}
use red_opt.Db.Flush.{db_total_server_key_count}
use red_opt.Evict.Cycle.{Result, Outside, Eviction, perform_evictions}
use red_opt.Evict.Cycle.Returns.{perform_evictions-returns}
use red_opt.Tests.Doubles.{decimals}
use red_opt.Tests.Dicts.{assoc, assoc_find}
use red_opt.Tests.Samples.{server}
use red_opt.Tests.Cycles.{outside, start}

abbrev random_server : Server
random_server = record server { maxmemory_policy = allkeys_random }

-- The random key is the first one.
abbrev first_key : List (Sds × Robj) → Sds
first_key [] = []
first_key (x ∷ m) = x.0

abbrev first_outside : Outside (assoc Robj) (assoc ℕ) decimals
first_outside = record outside { random_key = λ n m. first_key m; pending_jobs = λ n. false }

first_there :
    (tick : ℕ) (m : List (Sds × Robj))
    → length m ≢ 0
    → (o : Robj) × (assoc_find m (first_key m) ≡ some o)
unfolding assoc_find
first_there tick [] ne = absurd (ne refl)
first_there tick (x ∷ m) ne = (x.1, rw ((sds_eq_iff x.0 x.0).1 refl) refl)

two_keys : db_total_server_key_count (assoc Robj) (assoc ℕ) start.dbs ≤ 2
unfolding db_total_server_key_count
two_keys = omega arith

perform_evictions-returns_example :
    (r : Result × Eviction (assoc Robj) (assoc ℕ) decimals) × (perform_evictions
        (assoc Robj)
        (assoc ℕ)
        decimals
        3
        first_outside
        random_server
        start
      ≡ some r)
perform_evictions-returns_example =
    perform_evictions-returns (assoc Robj) (assoc ℕ) decimals first_outside random_server refl
      first_there 0 (λ n h. refl) 2 start (omega arith) refl two_keys (omega arith)
