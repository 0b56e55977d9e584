-- ===== src/Cache/Volatile/Tests.antt =====
-- Cache.Volatile at concrete inputs.
use runtime_rs.Base.{◌+◌, true, false, none, some, Str, [], ◌∷◌, codes, str_eq, starts_with}
use runtime_rs.Base.Assoc
use runtime_rs.Cache.Outcome.{ok}
use runtime_rs.Cache.Memory.{World}
use runtime_rs.Cache.Keyspace
use runtime_rs.Cache.Keyspace.{Keyspace, check_namespace}
use runtime_rs.Cache.Policy.{Options}
use runtime_rs.Cache.Volatile
use runtime_rs.Cache.Volatile.{VolatileImpl, Scanner, first_seen}
use runtime_rs.Cache.Volatile.Laws.{on_memory}

program : Unit {0}
unfolding Volatile.set Volatile.get Volatile.scan Volatile.resolve_ttl Keyspace.vol_prefix Assoc.get
    starts_with str_eq
program = tt

abbrev k : Str
k = codes "k"

abbrev ks : Keyspace
ks = Keyspace.new (codes "app") (codes "orders") 3 true

-- The clock ticks once with every reading.
abbrev empty : World
empty = record { clock = λ i. 100 + i; reads = 0; horizon = 10_000; map = [] }

abbrev plain : Options
plain = record { id = none; ttl = none; stale = none; indexes = none; permanent = false }

abbrev later : World
later = record empty {
  map = (Volatile.set (on_memory ks 50 true) k (7 ∷ []) plain empty).1.map;
  reads = 40;
}

abbrev base : Keyspace
base = record { base = [] }

abbrev scanner : Scanner World
scanner = record { scan = λ _ w. (ok (codes "vol:a" ∷ codes "vol:a" ∷ []), w) }

abbrev scanned : VolatileImpl World
scanned = record (on_memory base 0 false) { scanner = some scanner }
