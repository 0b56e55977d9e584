-- ===== src/Cache/Indexed.antt =====
-- cache/src/strategies/indexed.rs: documents with memberships in secondary indexes. A hash map is
-- walked in the order of its entries here, which may be any; the reads that the source makes
-- concurrently, with results in order, are made in their order.
pub mod Records
mod Tests
pub mod Filing
pub mod Membership
pub mod Equals
use runtime_rs.Base.{
  ℕ, if◌then◌else◌, max, Bool, true, false, not, List, [], ◌∷◌, ◌++◌, Option, none, some, Str,
  Bytes, codes, length, split_once,
}
use runtime_rs.Base.Assoc
use runtime_rs.Base.Assoc.{Map}
use runtime_rs.Cache.Outcome.{
  ignored, Outcome, Exec, ok, err, raise, pure, ◌>>=◌, ◌>>◌, unsupported,
}
use runtime_rs.Cache.Driver.{Driver, Bulk}
use runtime_rs.Cache.Sets.{Sets, SetScanner, contains}
use runtime_rs.Cache.Batch
use runtime_rs.Cache.Batch.{one_by_one, is_empty, map_keys}
use runtime_rs.Cache.Keyspace
use runtime_rs.Cache.Keyspace.{Keyspace}
use runtime_rs.Cache.Policy.{Options}
use runtime_rs.Cache.Document.{Document}
use runtime_rs.Cache.Strategy
use runtime_rs.Cache.Strategy.{DocumentImpl, DocumentWiring, indexed}

-- cache/src/core/indexed.rs
pub record Indexed (S : Type 0) : Type 0 where
  pub by_index : Str → Str → Exec S (List Bytes)
  pub ids_by_index : Str → Str → Exec S (List Str)
  pub delete_by_index : Str → Str → Exec S ℕ

pub record IndexedImpl (S : Type 0) : Type 1 where
  pub document : DocumentImpl S
  pub driver : Driver S
  pub sets : Option (Sets S)
  pub bulk : Option (Bulk S)
  pub set_scanner : Option (SetScanner S)
  pub keyspace : Keyspace
  pub concurrency : ℕ

unfoldable pub pair : Str → Str → Str
pair field value = field ++ (b'=' ∷ value)

unfoldable pub split_pair : Str → Str × Str
split_pair p = elim (split_once b'=' p) [ some parts ↦ parts | none ↦ (p, []) ]

-- The secondary set that a recorded pair stands for.
unfoldable pub recorded_key : Keyspace → Str → Str
recorded_key ks p = Keyspace.idx_by_field ks (split_pair p).0 (split_pair p).1

abbrev pub has_entries : Map Str → Bool
has_entries [] = false
has_entries (_ ∷ _) = true

abbrev pub pairs_of : Map Str → List Str
pairs_of [] = []
pairs_of ((field, value) ∷ entries) = pair field value ∷ pairs_of entries

-- `opts.indexes`, if there are any.
unfoldable pub requested : Options → Map Str
requested opts = elim opts.indexes [ none ↦ [] | some indexes ↦ indexes ]

-- `entry(key).or_default().push(id)`
unfoldable pub push : Str → Str → Map (List Str) → Map (List Str)
push key id groups = elim (Assoc.get key groups) [
  | none ↦ Assoc.insert key (id ∷ []) groups
  | some ids ↦ Assoc.insert key (ids ++ (id ∷ [])) groups
]

unfoldable pub push_fields : Keyspace → Str → List Str → Map (List Str) → Map (List Str)
push_fields ks id [] groups = groups
push_fields ks id (p ∷ fields) groups =
    push_fields ks id fields (push (recorded_key ks p) id groups)

-- The ids to be taken out of each secondary set.
unfoldable pub removals : Keyspace → List (Str × List Str) → Map (List Str) → Map (List Str)
unfolding push_fields
removals ks [] groups = groups
removals ks ((id, fields) ∷ records) groups = removals ks records (push_fields ks id fields groups)

module _ {S : Type 0} where
  unfoldable pub new_with_id : DocumentWiring S → IndexedImpl S
  unfolding Strategy.with_layout
  new_with_id wiring = record {
    document = Strategy.with_layout wiring indexed;
    driver = wiring.driver;
    sets = wiring.sets;
    bulk = wiring.bulk;
    set_scanner = wiring.set_scanner;
    keyspace = wiring.keyspace;
    concurrency = max wiring.concurrency 1;
  }

  unfoldable pub file_each : Keyspace → Sets S → Str → Map Str → Exec S Unit
  file_each ks sets id [] = pure tt
  file_each ks sets id ((field, value) ∷ entries) = do
    sets.set_add (Keyspace.idx_by_field ks field value) (id ∷ [])
    file_each ks sets id entries

  unfoldable pub file : Keyspace → Sets S → Str → Map Str → Exec S Unit
  unfolding file_each
  file ks sets id indexes = if not (has_entries indexes) then pure tt else (do
    file_each ks sets id indexes
    sets.set_add (Keyspace.idx_fields ks id) (pairs_of indexes))

  -- The recorded memberships that are not wanted are removed; what is returned is their pairs.
  unfoldable pub drop_each : Keyspace → Sets S → Str → List Str → List Str → Exec S (List Str)
  drop_each ks sets id wanted [] = pure []
  drop_each ks sets id wanted (p ∷ previous) =
      if contains p wanted then drop_each ks sets id wanted previous else (do
        sets.set_remove (recorded_key ks p) (id ∷ [])
        dropped ← drop_each ks sets id wanted previous
        pure (p ∷ dropped))

  -- The failure to prune the record is dropped.
  unfoldable pub prune : Keyspace → Sets S → Str → List Str → Exec S Unit
  prune ks sets id dropped s =
      if is_empty dropped
      then (ok tt, s)
      else let pruned = sets.set_remove (Keyspace.idx_fields ks id) dropped s in
        (ignored pruned.0, pruned.1)

  unfoldable pub refile : Keyspace → Sets S → Str → Map Str → Exec S Unit
  unfolding drop_each prune
  refile ks sets id indexes = do
    previous ← sets.set_members (Keyspace.idx_fields ks id)
    dropped ← drop_each ks sets id (pairs_of indexes) previous
    prune ks sets id dropped
    file ks sets id indexes

  unfoldable pub unfile_each : Keyspace → Sets S → Str → List Str → Exec S Unit
  unfile_each ks sets id [] = pure tt
  unfile_each ks sets id (p ∷ previous) = do
    sets.set_remove (recorded_key ks p) (id ∷ [])
    unfile_each ks sets id previous

  unfoldable pub unfile : Keyspace → Sets S → Str → Exec S Unit
  unfolding unfile_each
  unfile ks sets id = do
    previous ← sets.set_members (Keyspace.idx_fields ks id)
    unfile_each ks sets id previous
    sets.set_remove (Keyspace.idx_fields ks id) previous

  unfoldable pub ids_by_index : IndexedImpl S → Str → Str → Exec S (List Str)
  ids_by_index d field value = elim d.sets [
    | none ↦ raise unsupported
    | some sets ↦
        Batch.live_members d.driver d.bulk sets d.set_scanner
          (Keyspace.idx_by_field d.keyspace field value) (Keyspace.idx_entry d.keyspace)
  ]

  unfoldable pub by_index : IndexedImpl S → Str → Str → Exec S (List Bytes)
  by_index d field value = do
    ids ← ids_by_index d field value
    Batch.get_all d.driver d.bulk (map_keys (Keyspace.idx_entry d.keyspace) ids)

  -- The record of one id.
  unfoldable pub read_record : Keyspace → Sets S → Str → Exec S (Str × List Str)
  read_record ks sets id = do
    fields ← sets.set_members (Keyspace.idx_fields ks id)
    pure (id, fields)

  unfoldable pub remove_groups : Sets S → Map (List Str) → Exec S Unit
  remove_groups sets [] = pure tt
  remove_groups sets ((key, ids) ∷ groups) = do sets.set_remove key ids; remove_groups sets groups

  unfoldable pub clear_records : Keyspace → Sets S → List (Str × List Str) → Exec S Unit
  clear_records ks sets [] = pure tt
  clear_records ks sets ((id, fields) ∷ records) = do
    sets.set_remove (Keyspace.idx_fields ks id) fields
    clear_records ks sets records

  unfoldable pub delete_ids : IndexedImpl S → Sets S → List Str → Exec S ℕ
  unfolding read_record remove_groups clear_records removals one_by_one
  delete_ids d sets ids = do
    records ← one_by_one (read_record d.keyspace sets) ids
    remove_groups sets (removals d.keyspace records [])
    sets.set_remove (Keyspace.idx_index d.keyspace) ids
    clear_records d.keyspace sets records
    d.driver.delete (map_keys (Keyspace.idx_entry d.keyspace) ids)
    pure (length ids)

  unfoldable pub delete_by_index : IndexedImpl S → Str → Str → Exec S ℕ
  unfolding delete_ids
  delete_by_index d field value = do
    ids ← ids_by_index d field value
    if is_empty ids
        then pure 0
        else elim d.sets [ none ↦ raise unsupported | some sets ↦ delete_ids d sets ids ]

  lift : {A : Type 0} → Outcome A → Exec S A
  lift r s = (r, s)

  -- `self.sets.as_ref().ok_or(CacheError::Unsupported)?`, where there are indexes to be filed.
  unfoldable pub file_requested : IndexedImpl S → Str → Map Str → Exec S Unit
  unfolding file
  file_requested d id indexes =
      if not (has_entries indexes)
      then pure tt
      else elim d.sets [ none ↦ raise unsupported | some sets ↦ file d.keyspace sets id indexes ]

  unfoldable pub create : IndexedImpl S → Bytes → Options → Exec S Str
  unfolding lift requested file_requested
  create d value opts = do
    lift (Strategy.resolve_ttl d.document opts)
    id ← Strategy.resolve_id d.document opts
    file_requested d id (requested opts)
    Strategy.create d.document value (record opts { id = some id })

  unfoldable pub get : IndexedImpl S → Str → Exec S Bytes
  get d = Strategy.get d.document

  unfoldable pub update : IndexedImpl S → Str → Bytes → Options → Exec S Unit
  unfolding requested refile
  update d id value opts =
      if not (has_entries (requested opts))
      then Strategy.update d.document id value opts
      else elim d.sets [
        | none ↦ raise unsupported
        | some sets ↦ (do
          Strategy.update d.document id value opts
          refile d.keyspace sets id (requested opts))
      ]

  unfoldable pub delete : IndexedImpl S → Str → Exec S Unit
  unfolding unfile
  delete d id = elim d.sets [
    | none ↦ Strategy.delete d.document id
    | some sets ↦ (do unfile d.keyspace sets id; Strategy.delete d.document id)
  ]

  abbrev pub document_of : IndexedImpl S → Document S
  document_of d = record {
    create = create d;
    get = get d;
    update = update d;
    delete = delete d;
    keys = Strategy.keys d.document;
    list = Strategy.list d.document;
    ttl = Strategy.ttl d.document;
  }

  abbrev pub indexed_of : IndexedImpl S → Indexed S
  indexed_of d = record {
    by_index = by_index d;
    ids_by_index = ids_by_index d;
    delete_by_index = delete_by_index d;
  }
