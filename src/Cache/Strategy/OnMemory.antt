-- ===== src/Cache/Strategy/OnMemory.antt =====
-- The Document strategy over the memory driver and the sets in memory.
pub mod Bulks
use runtime_rs.Base.{
  ℕ, ◌≤◌, ◌≡◌, ◌≢◌, refl, sym, ◌∙◌, ◌==◌, ◌&&◌, ◌||◌, not, if◌then◌else◌, Bool, true, false, List,
  [], ◌∷◌, ◌++◌, Option, none, some, Str, Bytes, str_eq, str_eq_iff, str_eq_refl, arith,
  append-left_cancel, Bool-cases, inl, inr, codes,
}
use runtime_rs.Base.Assoc
use runtime_rs.Base.Assoc.{get-remove}
use runtime_rs.Cache.Outcome.{Outcome, Exec, ok, err, panic, not_found}
use runtime_rs.Cache.Driver.{Driver, Bulk, Leases}
use runtime_rs.Cache.Memory
use runtime_rs.Cache.Memory.{Entry, World}
use runtime_rs.Cache.Sets as Process
use runtime_rs.Cache.Sets.{Sets, MemorySets}
use runtime_rs.Cache.Keyspace
use runtime_rs.Cache.Keyspace.{Keyspace}
use runtime_rs.Cache.Strategy
use runtime_rs.Cache.Strategy.{DocumentImpl, DocumentLayout, document, indexed, entry_key}

abbrev pub Shared : Type 0
Shared = World × MemorySets

abbrev pub left : {A : Type 0} → Exec World A → Exec Shared A
left m s = ((m s.0).0, ((m s.0).1, s.1))

abbrev pub right : {A : Type 0} → Exec MemorySets A → Exec Shared A
right m s = ((m s.1).0, (s.0, (m s.1).1))

abbrev pub driver : Driver Shared
driver = record {
  get = λ k. left (Memory.get k);
  set = λ k v ttl. left (Memory.set k v ttl);
  add = λ k v ttl. left (Memory.add k v ttl);
  replace = λ k v ttl. left (Memory.replace k v ttl);
  delete = λ ks. left (Memory.delete ks);
  exists = λ k. left (Memory.exists k);
  touch = λ k ttl. left (Memory.touch k ttl);
}

abbrev pub bulk : Bulk Shared
bulk = record {
  get_many = λ ks. left (Memory.get_many ks);
  exists_many = λ ks. left (Memory.exists_many ks);
}

abbrev pub leases : Leases Shared
leases = record { ttl = λ k. left (Memory.ttl k) }

module _ (ks : Keyspace) (layout : DocumentLayout) (default_ttl : ℕ) (require_ttl : Bool)
    (iterate : List Str → List Str) (fresh_id : Shared → Str) where
  abbrev pub sets : Sets Shared
  sets = record {
    set_add = λ k ids. right (Process.set_add k ids);
    set_remove = λ k ids. right (Process.set_remove k ids);
    set_members = λ k. right (Process.set_members iterate k);
  }

  abbrev pub impl : DocumentImpl Shared
  impl = record {
    driver = driver;
    sets = some sets;
    leases = some leases;
    bulk = some bulk;
    set_scanner = none;
    keyspace = ks;
    layout = layout;
    default_ttl = default_ttl;
    require_ttl = require_ttl;
    new_id = λ s. (fresh_id s, s);
    concurrency = 16;
  }

entry_key-injective : (d : DocumentImpl Shared) (a b : Str) → entry_key d a ≡ entry_key d b → a ≡ b
unfolding entry_key Keyspace.doc_entry Keyspace.idx_entry
entry_key-injective d a b e = ground (
  arith,
  append-left_cancel d.keyspace.base (codes "doc:entry:" ++ a) (codes "doc:entry:" ++ b),
  append-left_cancel (codes "doc:entry:") a b,
  append-left_cancel d.keyspace.base (codes "idx:entry:" ++ a) (codes "idx:entry:" ++ b),
  append-left_cancel (codes "idx:entry:") a b,
)

-- Two ids have one key only if they are one id.
pub entry_key-str_eq :
    (d : DocumentImpl Shared) (a b : Str) → str_eq (entry_key d a) (entry_key d b) ≡ str_eq a b
entry_key-str_eq d a b = ground (
  arith,
  str_eq_iff (entry_key d a) (entry_key d b),
  str_eq_iff a b,
  entry_key-injective d a b,
  same_key,
)
  where
    same_key : a ≡ b → entry_key d a ≡ entry_key d b
    same_key e = rw e refl
