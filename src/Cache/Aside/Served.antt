-- ===== src/Cache/Aside/Served.antt =====
-- What a load has stored is what later calls are served, over the memory driver.
use runtime_rs.Base.{
  ℕ, ◌+◌, ◌<◌, ◌≡◌, ◌⊎◌, ◌==◌, ◌&&◌, not, any, str_eq, ltb, if◌then◌else◌, List, ◌∷◌, Bool, false,
  some, Str, Bytes, arith, str_eq_refl,
}
use runtime_rs.Base.Assoc
use runtime_rs.Cache.Outcome.{ok, err, not_found}
use runtime_rs.Cache.Keyspace
use runtime_rs.Cache.Policy.{Options, Freshness}
use runtime_rs.Cache.Memory
use runtime_rs.Cache.Memory.{World}
use runtime_rs.Cache.Memory.View.{view, alive, present, leased, Fits}
use runtime_rs.Cache.Memory.Reads.{get-view}
use runtime_rs.Cache.Memory.Writes.{set_exact}
use runtime_rs.Cache.Aside
use runtime_rs.Cache.Aside.{AsideImpl}
use runtime_rs.Cache.Aside.Envelope.{
  Codec, Platform, coded, is_past, pack_value, pack_void, fresh_until_millis, unix_millis, unpack,
}
use runtime_rs.Cache.Aside.Deadline.{IsFaithful, unpack-pack_value, unpack-pack_void}
use runtime_rs.Cache.Aside.OnMemory.{on_memory, beside}

module _ (codec : Codec) (platform : Platform) (faithful : IsFaithful codec) {A : Type 0}
    (d : AsideImpl (World × A)) (id : Str) where
  abbrev entry : Str
  entry = Keyspace.aside_entry d.keyspace id

  -- The state after the loader has returned, and that in which its value is stored.
  abbrev pub loaded_at : World × A → World × A
  loaded_at s = (d.outside.loader id s).1

  abbrev pub storing_at : World × A → World × A
  storing_at s = (d.outside.now (loaded_at s)).1

  -- The state in which a reader takes the system's time.
  abbrev pub reading_at : World × A → World × A
  reading_at u = (beside (Memory.get entry) u).1

  store_exact :
      (freshness : Freshness) (body frame : Bytes) (deadline : ℕ) (s : World × A)
      → (d.outside.loader id s).0 ≡ ok body
      → fresh_until_millis platform (d.outside.now (loaded_at s)).0 freshness.fresh_for
        ≡ ok deadline
      → pack_value codec body deadline ≡ ok frame
      → Fits (storing_at s).0 freshness.hard_ttl
      → let end = Aside.load_and_store_claimed codec platform (on_memory d) id freshness s in
        (end.0 ≡ ok body)
        × ((t : ℕ)
            → view t end.1.0 entry
              ≡ alive t (some (leased (storing_at s).0 frame freshness.hard_ttl)))
  unfolding Aside.load_and_store_claimed Aside.store_loaded
  store_exact freshness body frame deadline s loads until packed fits = (
    ground (
      arith,
      loads,
      until,
      packed,
      set_exact entry frame freshness.hard_ttl (storing_at s).0 0 entry fits,
    ),
    λ t. ground (
      arith,
      loads,
      until,
      packed,
      str_eq_refl entry,
      set_exact entry frame freshness.hard_ttl (storing_at s).0 t entry fits,
    ),
  )

  -- A call that finds a live frame.
  serve_frame :
      (contended admitted : Bool) (opts : Options) (refreshing : List Str) (frame : Bytes)
      (now_ms : ℕ) (u : World × A)
      → (Memory.get entry u.0).0 ≡ ok frame
      → unix_millis platform (d.outside.now (reading_at u)).0 ≡ ok now_ms
      → Aside.get_or_load codec platform contended admitted (on_memory d) id opts refreshing u
        ≡ Aside.handed_out contended admitted id refreshing (
            Aside.serve codec platform
              (on_memory d)
              id
              opts
              (unpack codec frame now_ms)
              (d.outside.now (reading_at u)).1)
  unfolding Aside.get_or_load Aside.read
  serve_frame contended admitted opts refreshing frame now_ms u found time =
      ground (arith, found, time)

  -- Over the memory driver, and with a JSON codec that reads back what it wrote, let a loader's value
  -- be JSON, its deadline be representable and its lease fit the clock. Then the load returns the value.
  -- As long as nobody writes the entry, its lease lasts and the time is representable, every later call
  -- returns the value's JSON text, and itself only looks at the entry and at the clock: it does not wait
  -- for the loader. It starts a background refresh, which will call the loader, exactly where there is a
  -- deadline, this has passed, no other reader holds the marks, the id is not marked, and the refresher
  -- admits it; and it marks the id in these cases, the last condition aside.
  pub loaded_is_served :
      (freshness : Freshness) (body json frame : Bytes) (deadline now_ms : ℕ) (s u : World × A)
      (opts : Options) (contended admitted : Bool) (refreshing : List Str)
      → (d.outside.loader id s).0 ≡ ok body
      → codec.raw body ≡ coded json
      → fresh_until_millis platform (d.outside.now (loaded_at s)).0 freshness.fresh_for
        ≡ ok deadline
      → pack_value codec body deadline ≡ ok frame
      → Fits (storing_at s).0 freshness.hard_ttl
      → let end = Aside.load_and_store_claimed codec platform (on_memory d) id freshness s in
        Assoc.get entry u.0.map ≡ Assoc.get entry end.1.0.map
        → (freshness.hard_ttl ≡ 0) ⊎ (present u.0 < present (storing_at s).0 + freshness.hard_ttl)
        → unix_millis platform (d.outside.now (reading_at u)).0 ≡ ok now_ms
        → let stale = not (deadline == 0) && ltb deadline now_ms in
          let marks = stale && (not contended && not (any (str_eq id) refreshing)) in
          (end.0 ≡ ok body)
          × (Aside.get_or_load codec platform contended admitted (on_memory d) id opts refreshing u
              ≡ (
                ok json,
                (
                  (marks && admitted, if marks then id ∷ refreshing else refreshing),
                  (d.outside.now (reading_at u)).1,
                ),
              ))
  unfolding Aside.serve Aside.handed_out Aside.refresh_in_background is_past
  loaded_is_served freshness body json frame deadline now_ms s u opts contended admitted refreshing
        loads text until packed fits same lasts time =
      let stored = store_exact freshness body frame deadline s loads until packed fits in
      let found : ((Memory.get entry u.0).0 ≡ ok frame) =
        ground (arith, get-view entry u.0, stored.1 (present u.0), same, lasts) in
      (
        stored.0,
        ground (
          arith,
          serve_frame contended admitted opts refreshing frame now_ms u found time,
          unpack-pack_value codec faithful frame now_ms body json deadline text packed,
        ),
      )

  absence_exact :
      (freshness : Freshness) (frame : Bytes) (s : World × A)
      → (d.outside.loader id s).0 ≡ err not_found
      → (d.negative_ttl == 0) ≡ false
      → pack_void codec ≡ ok frame
      → Fits (loaded_at s).0 d.negative_ttl
      → let end = Aside.load_and_store_claimed codec platform (on_memory d) id freshness s in
        (end.0 ≡ err not_found)
        × ((t : ℕ)
            → view t end.1.0 entry ≡ alive t (some (leased (loaded_at s).0 frame d.negative_ttl)))
  unfolding Aside.load_and_store_claimed Aside.remember_absence
  absence_exact freshness frame s loads some_ttl packed fits = (
    ground (arith, loads, some_ttl, packed),
    λ t. ground (
      arith,
      loads,
      some_ttl,
      packed,
      str_eq_refl entry,
      set_exact entry frame d.negative_ttl (loaded_at s).0 t entry fits,
    ),
  )

  -- Over the memory driver, and with a JSON codec that reads back what it wrote, let absences be
  -- remembered for a lease that fits the clock, and the loader report one. Then the load returns
  -- `NotFound`. As long as nobody writes the entry, that lease lasts and the time is representable,
  -- every later call returns `NotFound` without calling the loader or starting a refresh.
  pub absence_is_served :
      (freshness : Freshness) (frame : Bytes) (now_ms : ℕ) (s u : World × A) (opts : Options)
      (contended admitted : Bool) (refreshing : List Str)
      → (d.outside.loader id s).0 ≡ err not_found
      → (d.negative_ttl == 0) ≡ false
      → pack_void codec ≡ ok frame
      → Fits (loaded_at s).0 d.negative_ttl
      → let end = Aside.load_and_store_claimed codec platform (on_memory d) id freshness s in
        Assoc.get entry u.0.map ≡ Assoc.get entry end.1.0.map
        → present u.0 < present (loaded_at s).0 + d.negative_ttl
        → unix_millis platform (d.outside.now (reading_at u)).0 ≡ ok now_ms
        → (end.0 ≡ err not_found)
          × (Aside.get_or_load codec platform contended admitted (on_memory d) id opts refreshing u
              ≡ (err not_found, ((false, refreshing), (d.outside.now (reading_at u)).1)))
  unfolding Aside.serve Aside.handed_out
  absence_is_served freshness frame now_ms s u opts contended admitted refreshing loads some_ttl
        packed fits same lasts time =
      let stored = absence_exact freshness frame s loads some_ttl packed fits in
      let found : ((Memory.get entry u.0).0 ≡ ok frame) =
        ground (arith, get-view entry u.0, stored.1 (present u.0), same, lasts) in
      (
        stored.0,
        ground (
          arith,
          serve_frame contended admitted opts refreshing frame now_ms u found time,
          unpack-pack_void codec faithful frame now_ms packed,
        ),
      )
