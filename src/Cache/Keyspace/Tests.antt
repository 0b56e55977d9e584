-- ===== src/Cache/Keyspace/Tests.antt =====
-- Cache.Keyspace at concrete inputs.
use runtime_rs.Base.{contains_char, ℕ, ◌≡◌, refl, true, Str, codes}
use runtime_rs.Cache.Keyspace
use runtime_rs.Cache.Keyspace.{Keyspace, check_namespace}
use runtime_rs.Cache.Keyspace.Families.{doc_entry, qualify-injective}

program : Unit {0}
unfolding Keyspace.new Keyspace.head check_namespace contains_char
program = tt

abbrev k : Str
k = codes "k"

abbrev three : ℕ
three = 3

abbrev ks : Keyspace
ks = Keyspace.new (codes "app") (codes "orders") 3 true

qualify-injective_example : doc_entry k ≡ doc_entry k
qualify-injective_example = qualify-injective ks (doc_entry k) (doc_entry k) tt tt refl
