-- ===== src/Cache/Strategy/Values.antt =====
-- What a document is read as after it has been written.
use runtime_rs.Base.{
  ℕ, ◌≡◌, if◌then◌else◌, Bool, List, [], ◌∷◌, some, Str, Bytes, str_eq_refl, arith,
}
use runtime_rs.Base.Assoc
use runtime_rs.Cache.Outcome.{ok, err, not_found}
use runtime_rs.Cache.Memory.View.{view, present, occupied, check_time, Fits, leased}
use runtime_rs.Cache.Memory.Locks.{Lasts}
use runtime_rs.Cache.Memory.Reads.{get-view}
use runtime_rs.Cache.Memory.Writes.{set_exact, replace_exact, delete_exact}
use runtime_rs.Cache.Sets as Process
use runtime_rs.Cache.Keyspace.{Keyspace}
use runtime_rs.Cache.Policy.{Options}
use runtime_rs.Cache.Strategy
use runtime_rs.Cache.Strategy.{
  DocumentImpl, DocumentLayout, entry_key, index_key, resolve_ttl, resolve_id,
}
use runtime_rs.Cache.Strategy.OnMemory.{Shared, impl}

module _ (ks : Keyspace) (layout : DocumentLayout) (default_ttl : ℕ) (require_ttl : Bool)
    (iterate : List Str → List Str) (fresh_id : Shared → Str) where
  abbrev d : DocumentImpl Shared
  d = impl ks layout default_ttl require_ttl iterate fresh_id

  -- A `create` under an id that the caller gives, whose lease the policy resolves and the clock can
  -- hold, returns that id; and a `get` of the id returns the value at any time of the lease, as
  -- long as the driver's map is the one that the `create` left.
  pub get-create :
      (value : Bytes) (opts : Options) (id : Str) (ttl : ℕ) (s u : Shared)
      → opts.id ≡ some id
      → resolve_ttl d opts ≡ ok ttl
      → Fits s.0 ttl
      → u.0.map ≡ (Strategy.create d value opts s).1.0.map
      → Lasts s.0 ttl (present u.0)
      → ((Strategy.create d value opts s).0 ≡ ok id) × ((Strategy.get d id u).0 ≡ ok value)
  unfolding Strategy.create Strategy.get Strategy.enlist resolve_id Process.set_add
  get-create value opts id ttl s u named resolved fits same lasts = ground (
    arith,
    named,
    resolved,
    get-view (entry_key d id) u.0,
    set_exact (entry_key d id) value ttl s.0 (present u.0) (entry_key d id) fits,
    str_eq_refl (entry_key d id),
  )

  -- After a `delete`, which never fails, a `get` of the id is `NotFound`, as long as the driver's
  -- map is the one that the `delete` left.
  pub get-delete :
      (id : Str) (s u : Shared)
      → u.0.map ≡ (Strategy.delete d id s).1.0.map
      → ((Strategy.delete d id s).0 ≡ ok tt) × ((Strategy.get d id u).0 ≡ err not_found)
  unfolding Strategy.delete Strategy.get Strategy.unlist Process.set_remove
  get-delete id s u same = ground (
    arith,
    get-view (entry_key d id) u.0,
    delete_exact (entry_key d id ∷ []) s.0 (present u.0) (entry_key d id),
    str_eq_refl (entry_key d id),
  )

  -- An `update` whose lease the policy resolves and the clock can hold succeeds exactly where the
  -- entry was live when it looked; else it is `NotFound`, and no entry has changed.
  pub update_exact :
      (id : Str) (value : Bytes) (opts : Options) (ttl : ℕ) (s : Shared)
      → resolve_ttl d opts ≡ ok ttl
      → Fits s.0 ttl
      → ((Strategy.update d id value opts s).0 ≡ (
          if occupied (view (check_time s.0 ttl) s.0 (entry_key d id))
          then ok tt
          else err not_found))
        × ((Strategy.update d id value opts s).1.0.map ≡ (
            if occupied (view (check_time s.0 ttl) s.0 (entry_key d id))
            then Assoc.insert (entry_key d id) (leased s.0 value ttl) s.0.map
            else s.0.map))
        × ((Strategy.update d id value opts s).1.1 ≡ s.1)
  unfolding Strategy.update
  update_exact id value opts ttl s resolved fits =
      ground (arith, resolved, replace_exact (entry_key d id) value ttl s.0 fits)
