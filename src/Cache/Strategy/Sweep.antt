-- ===== src/Cache/Strategy/Sweep.antt =====
-- The sweep of `keys` takes nothing out of the index that can still be read.
use runtime_rs.Base.{
  ℕ, ◌≤◌, ◌≡◌, refl, sym, ◌∙◌, ap, subst, if◌then◌else◌, Bool, true, false, some, Str, arith, List,
  [], ◌∷◌, str_eq, str_eq_iff, Option-cases, Bool-cases, inl, inr,
}
use runtime_rs.Base.Assoc
use runtime_rs.Cache.Outcome.{Outcome, Exec, ok, err, panic, proceed, pure, ◌>>=◌, ◌>>◌}
use runtime_rs.Cache.Memory.{World}
use runtime_rs.Cache.Memory.View.{alive, view, present, occupied}
use runtime_rs.Cache.Memory.Reads.{exists_each}
use runtime_rs.Cache.Memory.Expiry.{
  IsMonotone, IsAfter-present, exists_each-IsAfter, exists_each-Tells, Tells,
}
use runtime_rs.Cache.Sets as Process
use runtime_rs.Cache.Sets.{contains, members_of}
use runtime_rs.Cache.Sets.Members.{contains-set_remove_all}
use runtime_rs.Cache.Batch
use runtime_rs.Cache.Batch.{partition, map_keys, one_by_one}
use runtime_rs.Cache.Batch.Batches.{exists_all-bulk}
use runtime_rs.Cache.Keyspace.{Keyspace}
use runtime_rs.Cache.Strategy
use runtime_rs.Cache.Strategy.{DocumentImpl, DocumentLayout, entry_key, index_key}
use runtime_rs.Cache.Strategy.OnMemory
use runtime_rs.Cache.Strategy.OnMemory.{Shared, impl, driver, bulk, left}
use runtime_rs.Cache.Strategy.OnMemory.Bulks.{memory_exists_many, tests}
use runtime_rs.Cache.Strategy.Listing.{IsListed, proceed_keeps}

-- An id that the partition calls stale is not live.
stale_absent :
    (t : ℕ) (w : World) (key : Str → Str) (ids : List Str) (answers : List Bool) (j : Str)
    → Tells t w (map_keys key ids) (ok answers)
    → contains j (partition ids answers).1 ≡ true
    → occupied (view t w (key j)) ≡ false
stale_absent t w key (id ∷ ids) (found ∷ answers) j h e = elim (Bool-cases found) [
  | inl live ↦ stale_absent t w key ids answers j h.1 (ground arith)
  | inr dead ↦ elim (Bool-cases (str_eq id j)) [
    | inl same ↦
        subst (λ i. occupied (view t w (key i)) ≡ false) ((str_eq_iff id j).0 same) (h.0 dead)
    | inr other ↦ stale_absent t w key ids answers j h.1 (ground arith)
  ]
]
stale_absent t w key [] answers j h e = absurd (ground arith)
stale_absent t w key (id ∷ ids) [] j h e = absurd (ground arith)

tested :
    (js : List Str) (s : Shared)
    → Batch.exists_all driver (some bulk) js s ≡ left (exists_each js) s
unfolding Batch.exists_all
tested js s = exists_all-bulk driver bulk js s memory_exists_many ∙ sym (tests js s)

module _ (ks : Keyspace) (layout : DocumentLayout) (default_ttl : ℕ) (require_ttl : Bool)
    (iterate : List Str → List Str) (fresh_id : Shared → Str) where
  abbrev d : DocumentImpl Shared
  d = impl ks layout default_ttl require_ttl iterate fresh_id

  abbrev Listed : ℕ → Shared → Type 0
  Listed = IsListed ks layout default_ttl require_ttl iterate fresh_id

  -- The removal of ids that are not live any more.
  removed-IsListed :
      (t0 t1 : ℕ) (w w' : World) (sets : Process.MemorySets) (stale : List Str)
      → t0 ≤ t1
      → w'.map ≡ w.map
      → ((t : ℕ) (j : Str)
          → t1 ≤ t
          → contains j stale ≡ true
          → occupied (view t w (entry_key d j)) ≡ false)
      → Listed t0 (w, sets)
      → Listed t1 (w', (Process.set_remove (index_key d) stale sets).1)
  removed-IsListed t0 t1 w w' sets stale order same absent h j t late seen =
      let seen_before : occupied (view t w (entry_key d j)) ≡ true =
        ap (λ m. occupied (alive t (Assoc.get (entry_key d j) m))) (sym same) ∙ seen in
      ground (
        arith,
        contains-set_remove_all j (index_key d) stale sets,
        h j t (omega (arith, order, late)) seen_before,
        absent t j late,
      )

  cleaned-IsListed :
      (t0 t1 : ℕ) (w w' : World) (sets : Process.MemorySets) (stale : List Str)
      → t0 ≤ t1
      → w'.map ≡ w.map
      → ((t : ℕ) (j : Str)
          → t1 ≤ t
          → contains j stale ≡ true
          → occupied (view t w (entry_key d j)) ≡ false)
      → Listed t0 (w, sets)
      → Listed t1
          (Batch.cleanup_stale
            (OnMemory.sets ks layout default_ttl require_ttl iterate fresh_id)
            (index_key d)
            stale
            (w', sets)).1
  unfolding Batch.cleanup_stale
  cleaned-IsListed t0 t1 w w' sets [] order same absent h j t late seen =
      h j t (omega (arith, order, late))
        (ap (λ m. occupied (alive t (Assoc.get (entry_key d j) m))) (sym same) ∙ seen)
  cleaned-IsListed t0 t1 w w' sets (x ∷ stale) order same absent h j t late seen =
      removed-IsListed t0 t1 w w' sets (x ∷ stale) order same absent h j t late seen

  -- What `live_members` does once it has the answers.
  abbrev finish : List Str → Outcome (List Bool) → Exec Shared (List Str)
  finish members answers s =
      ((λ s. proceed answers (λ found. pure (partition members found)) s) >>= (λ parts.
          Batch.cleanup_stale (OnMemory.sets ks layout default_ttl require_ttl iterate fresh_id)
            (index_key d) parts.1
          >> pure parts.0))
        s

  abbrev cleaned : List Str → World → Process.MemorySets → Outcome (Unit {0}) × Shared
  cleaned stale w' sets =
      Batch.cleanup_stale (OnMemory.sets ks layout default_ttl require_ttl iterate fresh_id)
        (index_key d) stale (w', sets)

  kept-IsListed :
      (t0 t1 : ℕ) (w w' : World) (sets : Process.MemorySets)
      → t0 ≤ t1
      → w'.map ≡ w.map
      → Listed t0 (w, sets)
      → Listed t1 (w', sets)
  kept-IsListed t0 t1 w w' sets order same h j t late seen =
      h j t (omega (arith, order, late))
        (ap (λ m. occupied (alive t (Assoc.get (entry_key d j) m))) (sym same) ∙ seen)

  finish-IsListed :
      (t0 t1 : ℕ) (w w' : World) (sets : Process.MemorySets) (members : List Str)
      (r : Outcome (List Bool))
      → t0 ≤ t1
      → w'.map ≡ w.map
      → ((t : ℕ) → t1 ≤ t → Tells t w (map_keys (entry_key d) members) r)
      → Listed t0 (w, sets)
      → Listed t1 (finish members r (w', sets)).1
  finish-IsListed t0 t1 w w' sets members (ok answers) order same tells h =
      let parts = partition members answers in
      subst (Listed t1)
        (sym (proceed_keeps parts.0 (cleaned parts.1 w' sets).0 (cleaned parts.1 w' sets).1))
        (cleaned-IsListed t0 t1 w w' sets parts.1 order same
          (λ t j late e. stale_absent t w (entry_key d) members answers j (tells t late) e) h)
  finish-IsListed t0 t1 w w' sets members (err e) order same tells h =
      kept-IsListed t0 t1 w w' sets order same h
  finish-IsListed t0 t1 w w' sets members panic order same tells h =
      kept-IsListed t0 t1 w w' sets order same h

  swept-IsListed :
      (members : List Str) (s : Shared)
      → IsMonotone s.0
      → Listed (present s.0) s
      → Listed
          (present (exists_each (map_keys (entry_key d) members) s.0).1)
          (finish members
            (exists_each (map_keys (entry_key d) members) s.0).0
            ((exists_each (map_keys (entry_key d) members) s.0).1, s.1)).1
  swept-IsListed members s mono h =
      let keys = map_keys (entry_key d) members in
      let after = exists_each-IsAfter keys s.0 in
      let w' = (exists_each keys s.0).1 in
      finish-IsListed (present s.0) (present w') s.0 w' s.1 members (exists_each keys s.0).0
        (IsAfter-present s.0 w' mono after) after.same_map
        (λ t late. exists_each-Tells t keys s.0 mono late) h

  cleaned_world :
      (stale : List Str) (w' : World) (sets : Process.MemorySets) → (cleaned stale w' sets).1.0 ≡ w'
  unfolding Batch.cleanup_stale
  cleaned_world [] w' sets = refl
  cleaned_world (x ∷ stale) w' sets = refl

  finish_world :
      (members : List Str) (r : Outcome (List Bool)) (w' : World) (sets : Process.MemorySets)
      → (finish members r (w', sets)).1.0 ≡ w'
  finish_world members (ok answers) w' sets =
      let parts = partition members answers in
      ap (λ s. s.0) (proceed_keeps parts.0 (cleaned parts.1 w' sets).0 (cleaned parts.1 w' sets).1)
      ∙ cleaned_world parts.1 w' sets
  finish_world members (err e) w' sets = refl
  finish_world members panic w' sets = refl

  -- What `live_members` does with the members that it has read.
  abbrev sweep : List Str → Exec Shared (List Str)
  sweep members s =
      finish members (Batch.exists_all driver (some bulk) (map_keys (entry_key d) members) s).0
        (Batch.exists_all driver (some bulk) (map_keys (entry_key d) members) s).1

  sweep-IsListed :
      (members : List Str) (s : Shared)
      → IsMonotone s.0
      → Listed (present s.0) s
      → Listed (present (sweep members s).1.0) (sweep members s).1
  sweep-IsListed members s mono h =
      let keys = map_keys (entry_key d) members in
      let tests = exists_each keys s.0 in
      subst (λ p. Listed (present (finish members p.0 p.1).1.0) (finish members p.0 p.1).1)
        (sym (tested keys s))
        (subst (λ w. Listed (present w) (finish members tests.0 (tests.1, s.1)).1)
          (sym (finish_world members tests.0 tests.1 s.1)) (swept-IsListed members s mono h))

  members_read :
      (s : Shared)
      → (ids : List Str) × (Process.set_members iterate (index_key d) s.1 ≡ (ok ids, s.1))
  unfolding Process.set_members
  members_read s = elim (Option-cases (Assoc.get (index_key d) s.1)) [
    | inl gone ↦ ([], ground arith)
    | inr (set, there) ↦ (iterate set, ground arith)
  ]

  abbrev listing : List Str → Exec Shared (List Str)
  listing members = if Batch.is_empty members then pure [] else (do
    parts ← Batch.classify_members driver (some bulk) (entry_key d) members
    Batch.cleanup_stale (OnMemory.sets ks layout default_ttl require_ttl iterate fresh_id)
        (index_key d) parts.1
    pure parts.0)

  listing-IsListed :
      (members : List Str) (s : Shared)
      → IsMonotone s.0
      → Listed (present s.0) s
      → Listed (present (listing members s).1.0) (listing members s).1
  unfolding Batch.classify_members
  listing-IsListed [] s mono h = h
  listing-IsListed (x ∷ members) s mono h = sweep-IsListed (x ∷ members) s mono h

  -- Over the memory driver and the sets of one process, let `keys` run as one section, so that no
  -- other call comes between its look at the entries and its removal of the stale members, and let
  -- the clock not run backwards. Where every id that is live from now on is listed, it is so after
  -- `keys`, whatever ids it has swept out of the index.
  pub keys-IsListed :
      (s : Shared)
      → IsMonotone s.0
      → IsListed ks layout default_ttl require_ttl iterate fresh_id (present s.0) s
      → IsListed ks layout default_ttl require_ttl iterate fresh_id
          (present (Strategy.keys (impl ks layout default_ttl require_ttl iterate fresh_id) s).1.0)
          (Strategy.keys (impl ks layout default_ttl require_ttl iterate fresh_id) s).1
  unfolding Strategy.keys Batch.live_members Batch.live_at_once
  keys-IsListed s mono h =
      let (ids, e) = members_read s in
      subst
        (λ p.
          Listed (present (proceed p.0 listing (s.0, p.1)).1.0) (proceed p.0 listing (s.0, p.1)).1)
        (sym e) (listing-IsListed ids s mono h)
