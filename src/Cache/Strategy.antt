-- ===== src/Cache/Strategy.antt =====
-- cache/src/strategies/document.rs: whole values under ids, listed through a set where the backend
-- has sets. `new_id` makes an id in the state that it finds.
pub mod OnMemory
pub mod Listing
pub mod Sweep
pub mod Values
mod Tests
use runtime_rs.Base.{
  ℕ, ◌==◌, if◌then◌else◌, not, max, Bool, true, false, List, [], ◌∷◌, Option, none, some, Str,
  Bytes,
}
use runtime_rs.Cache.Outcome.{
  Outcome, Exec, ok, err, raise, pure, ◌>>=◌, ◌>>◌, unsupported, no_ttl, not_found,
}
use runtime_rs.Cache.Driver.{Driver, Bulk, Leases}
use runtime_rs.Cache.Sets.{Sets, SetScanner}
use runtime_rs.Cache.Batch
use runtime_rs.Cache.Keyspace
use runtime_rs.Cache.Keyspace.{Keyspace}
use runtime_rs.Cache.Policy.{Options}
use runtime_rs.Cache.Document.{Document}

pub data DocumentLayout : Type 0 where
  document indexed : DocumentLayout

pub record DocumentImpl (S : Type 0) : Type 1 where
  pub driver : Driver S
  pub sets : Option (Sets S)
  pub leases : Option (Leases S)
  pub bulk : Option (Bulk S)
  pub set_scanner : Option (SetScanner S)
  pub keyspace : Keyspace
  pub layout : DocumentLayout
  pub default_ttl : ℕ
  pub require_ttl : Bool
  pub new_id : S → Str × S
  pub concurrency : ℕ

-- What a database hands to the strategy.
pub record DocumentWiring (S : Type 0) : Type 1 where
  pub driver : Driver S
  pub sets : Option (Sets S)
  pub leases : Option (Leases S)
  pub bulk : Option (Bulk S)
  pub set_scanner : Option (SetScanner S)
  pub keyspace : Keyspace
  pub default_ttl : ℕ
  pub require_ttl : Bool
  pub concurrency : ℕ
  pub new_id : S → Str × S

module _ {S : Type 0} where
  unfoldable pub with_layout : DocumentWiring S → DocumentLayout → DocumentImpl S
  with_layout wiring layout = record {
    driver = wiring.driver;
    sets = wiring.sets;
    leases = wiring.leases;
    bulk = wiring.bulk;
    set_scanner = wiring.set_scanner;
    keyspace = wiring.keyspace;
    layout = layout;
    default_ttl = wiring.default_ttl;
    require_ttl = wiring.require_ttl;
    new_id = wiring.new_id;
    concurrency = max wiring.concurrency 1;
  }

  unfoldable pub resolve_ttl : DocumentImpl S → Options → Outcome ℕ
  resolve_ttl d opts = elim opts.ttl [
    | some ttl ↦ ok ttl
    | none ↦
        if opts.permanent
        then ok 0
        else if not (d.default_ttl == 0)
        then ok d.default_ttl
        else if d.require_ttl
        then err no_ttl
        else ok 0
  ]

  unfoldable pub resolve_id : DocumentImpl S → Options → Exec S Str
  resolve_id d opts s = elim opts.id [
    | some id ↦ (ok id, s)
    | none ↦ (ok (d.new_id s).0, (d.new_id s).1)
  ]

  unfoldable pub entry_key : DocumentImpl S → Str → Str
  entry_key d id = elim d.layout [
    | document ↦ Keyspace.doc_entry d.keyspace id
    | indexed ↦ Keyspace.idx_entry d.keyspace id
  ]

  unfoldable pub index_key : DocumentImpl S → Str
  index_key d = elim d.layout [
    | document ↦ Keyspace.doc_index d.keyspace
    | indexed ↦ Keyspace.idx_index d.keyspace
  ]

  lift : {A : Type 0} → Outcome A → Exec S A
  lift r s = (r, s)

  -- `if let Some(sets)`
  unfoldable pub enlist : DocumentImpl S → Str → Exec S Unit
  enlist d id = elim d.sets [ none ↦ pure tt | some sets ↦ sets.set_add (index_key d) (id ∷ []) ]

  unfoldable pub unlist : DocumentImpl S → Str → Exec S Unit
  unlist d id = elim d.sets [ none ↦ pure tt | some sets ↦ sets.set_remove (index_key d) (id ∷ []) ]

  unfoldable pub create : DocumentImpl S → Bytes → Options → Exec S Str
  unfolding enlist lift
  create d value opts = do
    ttl ← lift (resolve_ttl d opts)
    id ← resolve_id d opts
    enlist d id
    d.driver.set (entry_key d id) value ttl
    pure id

  unfoldable pub get : DocumentImpl S → Str → Exec S Bytes
  get d id = d.driver.get (entry_key d id)

  unfoldable pub update : DocumentImpl S → Str → Bytes → Options → Exec S Unit
  unfolding lift
  update d id value opts = do
    ttl ← lift (resolve_ttl d opts)
    replaced ← d.driver.replace (entry_key d id) value ttl
    if replaced then pure tt else raise not_found

  unfoldable pub delete : DocumentImpl S → Str → Exec S Unit
  unfolding unlist
  delete d id = do d.driver.delete (entry_key d id ∷ []); unlist d id

  unfoldable pub keys : DocumentImpl S → Exec S (List Str)
  keys d = elim d.sets [
    | none ↦ raise unsupported
    | some sets ↦ Batch.live_members d.driver d.bulk sets d.set_scanner (index_key d) (entry_key d)
  ]

  unfoldable pub list : DocumentImpl S → Exec S (List Bytes)
  unfolding keys
  list d = do ids ← keys d; Batch.get_all d.driver d.bulk (Batch.map_keys (entry_key d) ids)

  unfoldable pub ttl : DocumentImpl S → Str → Exec S ℕ
  ttl d id = elim d.leases [ none ↦ raise unsupported | some leases ↦ leases.ttl (entry_key d id) ]

  -- The strategy behind the contract.
  abbrev pub document_of : DocumentImpl S → Document S
  document_of d = record {
    create = create d;
    get = get d;
    update = update d;
    delete = delete d;
    keys = keys d;
    list = list d;
    ttl = ttl d;
  }
