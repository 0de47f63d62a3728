-- ===== src/Tests/Samples.antt =====
-- A server, objects and pools to apply the theorems to.
use red_opt.Base.{ℕ, refl, List, [], ◌∷◌, true, false, arith}
use red_opt.Server.{Server, allkeys_lru_histogram, allkeys_lru}
use red_opt.Object.{Robj, chars}
use red_opt.Object.History.{IsRobj}
use red_opt.Pool.{Pool, eviction_pool_alloc}
use red_opt.Tests.Doubles.{Decimal, plus}

abbrev pub server : Server
server = record {
  hz = 10;
  lruclock = 1000;
  mstime = 1000000;
  unixtime = 6000;
  maxmemory = 1000;
  maxmemory_policy = allkeys_lru_histogram;
  maxmemory_samples = 5;
  maxmemory_eviction_tenacity = 10;
  lfu_log_factor = 10;
  lfu_decay_time = 1;
  loading = false;
  masterhost = false;
  repl_slave_ro = true;
  repl_slave_ignore_maxmemory = true;
  lazy_expire_disabled = false;
}

-- The same five seconds after, and with another policy.
abbrev pub later : Server
later = record server { lruclock = 1005 }

abbrev pub lru_server : Server
lru_server = record server { maxmemory_policy = allkeys_lru }

abbrev pub object_with : List ℕ → ℕ → Robj
object_with times n = record {
  kind = 0;
  encoding = 0;
  lru = 900;
  refcount = 1;
  ptr = chars (65 ∷ []);
  access_times = times;
  num_accesses = n;
  slack = 7 ∷ 8 ∷ [];
}

abbrev pub twice_used : Robj
twice_used = object_with (700 ∷ 800 ∷ 0 ∷ 0 ∷ []) 2

abbrev pub often_used : Robj
often_used = object_with (900 ∷ 950 ∷ 990 ∷ 995 ∷ []) 4

abbrev pub unused : Robj
unused = object_with (0 ∷ 0 ∷ 0 ∷ 0 ∷ []) 0

pub twice_used-IsRobj : IsRobj twice_used
twice_used-IsRobj = record { cells = refl; counted = omega arith; room = omega arith }

pub often_used-IsRobj : IsRobj often_used
often_used-IsRobj = record { cells = refl; counted = omega arith; room = omega arith }

pub unused-IsRobj : IsRobj unused
unused-IsRobj = record { cells = refl; counted = omega arith; room = omega arith }

-- The pool at the start.
abbrev pub new_pool : Pool Decimal
new_pool = eviction_pool_alloc (plus 0)
