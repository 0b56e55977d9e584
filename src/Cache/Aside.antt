-- ===== src/Cache/Aside.antt =====
-- cache/src/strategies/aside.rs: read-through over a loader. The envelope's JSON (serde_json), the
-- system's clock, the random tokens and the loader are parameters. A load runs here for the caller
-- that leads it; Cache.Flight has how others share it.
pub mod Envelope
pub mod Effects
pub mod OnMemory
pub mod Lock
mod Tests
pub mod Refreshes
pub mod Served
pub mod Deadline
use runtime_rs.Base.{
  ℕ, ◌+◌, ◌-◌, ◌==◌, ltb, leb, if◌then◌else◌, Bool, true, false, not, List, [], ◌∷◌, ◌++◌, any,
  str_eq, Option, none, some, Str, Bytes, codes, ◌&&◌,
}
use runtime_rs.Cache.Outcome.{
  Outcome, Exec, ok, err, panic, raise, pure, ignored, proceed, ◌>>=◌, ◌>>◌, not_found, CacheError,
}
use runtime_rs.Cache.Driver.{Driver, Fenced}
use runtime_rs.Cache.Keyspace
use runtime_rs.Cache.Keyspace.{Keyspace}
use runtime_rs.Cache.Policy
use runtime_rs.Cache.Policy.{Options, Freshness}
use runtime_rs.Cache.Aside.Envelope
use runtime_rs.Cache.Aside.Envelope.{
  Codec, Platform, StoredEntry, value, void, fresh_until_millis, unix_millis, pack_value, pack_void,
  unpack,
}

-- What an Aside view is given from outside: the system's clock, `Uuid::new_v4` and its loader.
pub record Outside (S : Type 0) : Type 0 where
  pub now : S → ℕ × S
  pub token : S → Bytes × S
  pub loader : Str → Exec S Bytes

pub record AsideImpl (S : Type 0) : Type 0 where
  pub driver : Driver S
  pub fenced : Option (Fenced S)
  pub keyspace : Keyspace
  pub outside : Outside S
  pub default_ttl : ℕ
  pub default_stale : ℕ
  pub require_ttl : Bool
  pub negative_ttl : ℕ
  pub lock_lease : ℕ

-- What an attempt to claim the load of an id gives: the lock's key and token, what another process
-- has published, or nothing.
pub data Claim : Type 0 where
  owned : Str → Bytes → Claim
  published : Bytes → Claim
  published_void : Claim
  unclaimed : Claim

-- What a reader makes of the entry when the lock is not to be had.
seen : Outcome StoredEntry → Outcome Claim
seen (ok (value body stale)) = ok (published body)
seen (ok void) = ok published_void
seen (err error) = ok unclaimed
seen panic = panic

-- What is returned after a release.
released_result : Outcome {0} Bytes → Outcome {0} (Unit {0}) → Outcome {0} Bytes
released_result (ok loaded) (ok done) = ok loaded
released_result (ok loaded) (err e) = ok loaded
released_result (ok loaded) panic = panic
released_result (err e) (ok done) = err e
released_result (err e) (err _) = err e
released_result (err e) panic = panic
released_result panic released = panic

-- The ids whose background refresh is under way. `contended` tells that another caller holds the
-- set's lock, `admitted` what `Refresher::go` answers.
unfoldable pub refresh_in_background : Bool → Bool → Str → List Str → Bool × List Str
refresh_in_background contended admitted id refreshing =
    if contended
    then (false, refreshing)
    else if any (str_eq id) refreshing
    then (false, refreshing)
    else if admitted
    then (true, id ∷ refreshing)
    else (false, id ∷ refreshing)

-- What a reader gets, whether a background refresh is started for it, and the ids that are marked for
-- one: the refresh is a task of its own, which runs `refresh` later.
handed_out :
    {S : Type 0}
    → Bool
    → Bool
    → Str
    → List Str
    → Outcome {0} (Bytes × Bool) × S
    → Outcome {0} Bytes × ((Bool × List Str) × S)
unfolding refresh_in_background
handed_out contended admitted id refreshing (ok (body, true), s) =
    (ok body, (refresh_in_background contended admitted id refreshing, s))
handed_out contended admitted id refreshing (ok (body, false), s) =
    (ok body, ((false, refreshing), s))
handed_out contended admitted id refreshing (err error, s) = (err error, ((false, refreshing), s))
handed_out contended admitted id refreshing (panic, s) = (panic, ((false, refreshing), s))

module _ (codec : Codec) (platform : Platform) {S : Type 0} where
  clock : AsideImpl S → Exec S ℕ
  clock d s = (ok (d.outside.now s).0, (d.outside.now s).1)

  fresh_token : AsideImpl S → Exec S Bytes
  fresh_token d s = (ok (d.outside.token s).0, (d.outside.token s).1)

  lift : {A : Type 0} → Outcome A → Exec S A
  lift r s = (r, s)

  unfoldable pub read : AsideImpl S → Str → Exec S StoredEntry
  unfolding clock lift
  read d id = do
    frame ← d.driver.get (Keyspace.aside_entry d.keyspace id)
    now ← clock d
    now_ms ← lift (unix_millis platform now)
    lift (unpack codec frame now_ms)

  unfoldable pub invalidate_entry : AsideImpl S → Str → Exec S Unit
  invalidate_entry d id = d.driver.delete (Keyspace.aside_entry d.keyspace id ∷ [])

  attempt : {A : Type 0} → Exec S A → Exec S Unit
  attempt m s = (ignored (m s).0, (m s).1)

  -- The timeout around it is not counted: a driver's answer comes in time.
  unfoldable pub release_owned : Fenced S → Str → Bytes → Exec S Unit
  unfolding attempt
  release_owned fenced key token = attempt (fenced.delete_if key token)

  unfoldable pub look_instead : AsideImpl S → Str → Exec S Claim
  unfolding seen
  look_instead d id s = (seen (read d id s).0, (read d id s).1)

  -- After the attempt to add the lock.
  added : AsideImpl S → Str → Str → Bytes → Outcome Bool → Exec S Claim
  added d id key token (ok true) s = (ok (owned key token), s)
  added d id key token (ok false) s = look_instead d id s
  added d id key token (err error) s = look_instead d id s
  added d id key token panic s = (panic, s)

  unfoldable pub claim : AsideImpl S → Str → Exec S Claim
  unfolding fresh_token added
  claim d id = elim d.fenced [
    | none ↦ pure unclaimed
    | some fenced ↦ (do
      token ← fresh_token d
      (λ s.
          let key = Keyspace.aside_lock d.keyspace id in
          let tried = d.driver.add key token d.lock_lease s in
          added d id key token tried.0 tried.1))
  ]

  -- The marker of an absence that the loader reported, if there is one to be stored.
  unfoldable pub remember_absence : AsideImpl S → Str → Exec S Unit
  unfolding attempt
  remember_absence d key = if d.negative_ttl == 0 then pure tt else elim (pack_void codec) [
    | ok frame ↦ attempt (d.driver.set key frame d.negative_ttl)
    | err error ↦ pure tt
    | panic ↦ λ s. (panic, s)
  ]

  unfoldable pub store_loaded : AsideImpl S → Str → Freshness → Bytes → Exec S Bytes
  unfolding clock lift
  store_loaded d key freshness loaded = do
    now ← clock d
    fresh_until ← lift (fresh_until_millis platform now freshness.fresh_for)
    frame ← lift (pack_value codec loaded fresh_until)
    d.driver.set key frame freshness.hard_ttl
    pure loaded

  -- After the loader has returned.
  unfoldable pub settle_loaded : AsideImpl S → Str → Freshness → Outcome Bytes → Exec S Bytes
  unfolding remember_absence store_loaded
  settle_loaded d key freshness (ok loaded) s = store_loaded d key freshness loaded s
  settle_loaded d key freshness (err not_found) s = (err not_found, (remember_absence d key s).1)
  settle_loaded d key freshness (err error) s = (err error, s)
  settle_loaded d key freshness panic s = (panic, s)

  unfoldable pub load_and_store_claimed : AsideImpl S → Str → Freshness → Exec S Bytes
  unfolding settle_loaded
  load_and_store_claimed d id freshness s =
      let loaded = d.outside.loader id s in
      settle_loaded d (Keyspace.aside_entry d.keyspace id) freshness loaded.0 loaded.1

  -- The result of the work is kept when the release has ended. After a panic, the claim's drop
  -- releases it, in a task whose own panic nobody sees.
  release_after : AsideImpl S → Str → Bytes → Outcome Bytes → Exec S Bytes
  release_after d key token result s = elim d.fenced [
    | none ↦ (result, s)
    | some fenced ↦
        let released = release_owned fenced key token s in
        (released_result result released.0, released.1)
  ]

  unfoldable pub after_claim : AsideImpl S → Str → Freshness → Claim → Exec S Bytes
  unfolding load_and_store_claimed release_after released_result
  after_claim d id freshness (owned key token) s =
      let work = load_and_store_claimed d id freshness s in release_after d key token work.0 work.1
  after_claim d id freshness (published body) s = (ok body, s)
  after_claim d id freshness published_void s = (err not_found, s)
  after_claim d id freshness unclaimed s = load_and_store_claimed d id freshness s

  unfoldable pub load_and_store : AsideImpl S → Str → Options → Exec S Bytes
  unfolding lift claim after_claim
  load_and_store d id opts = do
    ttl ← lift (Policy.resolve_ttl d.default_ttl d.require_ttl opts)
    freshness ← lift (Policy.freshness ttl (Policy.resolve_stale d.default_stale opts))
    claimed ← claim d id
    after_claim d id freshness claimed

  -- What a caller gets, and whether the value is stale.
  unfoldable pub serve : AsideImpl S → Str → Options → Outcome StoredEntry → Exec S (Bytes × Bool)
  unfolding load_and_store
  serve d id opts (ok (value body stale)) s = (ok (body, stale), s)
  serve d id opts (ok void) s = (err not_found, s)
  serve d id opts (err not_found) s = (do body ← load_and_store d id opts; pure (body, false)) s
  serve d id opts (err error) s = (err error, s)
  serve d id opts panic s = (panic, s)

  unfoldable pub get_or_load :
      Bool
      → Bool
      → AsideImpl S
      → Str
      → Options
      → List Str
      → S
      → Outcome {0} Bytes × ((Bool × List Str) × S)
  unfolding read serve handed_out refresh_in_background
  get_or_load contended admitted d id opts refreshing s =
      handed_out contended admitted id refreshing (serve d id opts (read d id s).0 (read d id s).1)

  unfoldable pub refresh : AsideImpl S → Str → Options → Exec S Unit
  unfolding load_and_store
  refresh d id opts = do load_and_store d id opts; pure tt

-- `RefreshClaim`'s drop at the task's end, and the detached cleanup after a refused admission.
unfoldable pub drop_refresh_claim : Str → List Str → List Str
drop_refresh_claim id [] = []
drop_refresh_claim id (other ∷ refreshing) =
    let rest = drop_refresh_claim id refreshing in if str_eq id other then rest else other ∷ rest
