-- ===== src/Cache/Indexed/Filing.antt =====
-- Filing, refiling and unfiling an id, over the sets in memory.
use runtime_rs.Base.{
  segment-injective, ◌≡◌, refl, ◌∙◌, ap, ◌&&◌, ◌||◌, not, if◌then◌else◌, Bool, true, List, [], ◌∷◌,
  none, some, Str, any, All, str_eq, str_eq_iff, str_eq_refl, arith, Bool-cases, inl, inr,
  Option-cases,
}
use runtime_rs.Base.Assoc
use runtime_rs.Base.Assoc.{Map}
use runtime_rs.Cache.Outcome.{ok}
use runtime_rs.Cache.Sets as Process
use runtime_rs.Cache.Sets.{Sets, MemorySets, contains, memory_sets, members_of}
use runtime_rs.Cache.Sets.Members.{has, has-set_add, has-set_remove, set_add-ok, set_remove-ok}
use runtime_rs.Cache.Keyspace
use runtime_rs.Cache.Keyspace.{Keyspace}
use runtime_rs.Cache.Indexed
use runtime_rs.Cache.Indexed.{pair, split_pair, recorded_key, pairs_of, has_entries}
use runtime_rs.Cache.Indexed.Records.{IsField, split_pair-pair, by_field-injective}

-- The pairs that are not wanted any more.
abbrev pub unwanted : List Str → List Str → List Str
unwanted wanted [] = []
unwanted wanted (p ∷ previous) =
    if contains p wanted then unwanted wanted previous else p ∷ unwanted wanted previous

module _ (ks : Keyspace) (iterate : List Str → List Str) where
  abbrev pub sets : Sets MemorySets
  sets = memory_sets iterate

  -- One of the entries has this set.
  abbrev pub names : Str → Map Str → Bool
  names j = any (λ e. str_eq (Keyspace.idx_by_field ks e.0 e.1) j)

  -- One of the recorded pairs stands for this set.
  abbrev pub records : Str → List Str → Bool
  records j = any (λ p. str_eq (recorded_key ks p) j)

  module _ (id j x : Str) where
    file_each-has :
        (indexes : Map Str) (m : MemorySets)
        → ((Indexed.file_each ks sets id indexes m).0 ≡ ok tt)
          × (has (Indexed.file_each ks sets id indexes m).1 j x
              ≡ (has m j x || (names j indexes && str_eq id x)))
    unfolding Indexed.file_each
    file_each-has [] m = (refl, ground arith)
    file_each-has ((f, v) ∷ indexes) m =
        let key = Keyspace.idx_by_field ks f v in
        ground (
          arith,
          set_add-ok key (id ∷ []) m,
          has-set_add m key j x (id ∷ []),
          file_each-has indexes (Process.set_add key (id ∷ []) m).1,
        )

    pub unfile_each-has :
        (previous : List Str) (m : MemorySets)
        → ((Indexed.unfile_each ks sets id previous m).0 ≡ ok tt)
          × (has (Indexed.unfile_each ks sets id previous m).1 j x
              ≡ (has m j x && not (records j previous && str_eq id x)))
    unfolding Indexed.unfile_each
    unfile_each-has [] m = (refl, ground arith)
    unfile_each-has (p ∷ previous) m =
        let key = recorded_key ks p in
        ground (
          arith,
          set_remove-ok key (id ∷ []) m,
          has-set_remove m key j x (id ∷ []),
          unfile_each-has previous (Process.set_remove key (id ∷ []) m).1,
        )

    pub drop_each-has :
        (wanted previous : List Str) (m : MemorySets)
        → ((Indexed.drop_each ks sets id wanted previous m).0 ≡ ok (unwanted wanted previous))
          × (has (Indexed.drop_each ks sets id wanted previous m).1 j x
              ≡ (has m j x && not (records j (unwanted wanted previous) && str_eq id x)))
    unfolding Indexed.drop_each
    drop_each-has wanted [] m = (refl, ground arith)
    drop_each-has wanted (p ∷ previous) m =
        let key = recorded_key ks p in
        ground (
          arith,
          set_remove-ok key (id ∷ []) m,
          has-set_remove m key j x (id ∷ []),
          drop_each-has wanted previous m,
          drop_each-has wanted previous (Process.set_remove key (id ∷ []) m).1,
        )

    pub file-has :
        (indexes : Map Str) (m : MemorySets)
        → ((Indexed.file ks sets id indexes m).0 ≡ ok tt)
          × (has (Indexed.file ks sets id indexes m).1 j x ≡ (
              has m j x
              || ((names j indexes && str_eq id x)
                  || (str_eq (Keyspace.idx_fields ks id) j && contains x (pairs_of indexes)))))
    unfolding Indexed.file
    file-has [] m = (refl, ground arith)
    file-has ((f, v) ∷ indexes) m =
        let n = (Indexed.file_each ks sets id ((f, v) ∷ indexes) m).1 in
        let key = Keyspace.idx_fields ks id in
        ground (
          arith,
          file_each-has ((f, v) ∷ indexes) m,
          set_add-ok key (pairs_of ((f, v) ∷ indexes)) n,
          has-set_add n key j x (pairs_of ((f, v) ∷ indexes)),
        )

    pub prune-has :
        (dropped : List Str) (m : MemorySets)
        → ((Indexed.prune ks sets id dropped m).0 ≡ ok tt)
          × (has (Indexed.prune ks sets id dropped m).1 j x
              ≡ (has m j x && not (str_eq (Keyspace.idx_fields ks id) j && contains x dropped)))
    unfolding Indexed.prune
    prune-has [] m = (refl, ground arith)
    prune-has (p ∷ dropped) m = (
      ground (arith, set_remove-ok (Keyspace.idx_fields ks id) (p ∷ dropped) m),
      has-set_remove m (Keyspace.idx_fields ks id) j x (p ∷ dropped),
    )

  -- What `set_members` gives.
  abbrev pub listed : Str → MemorySets → List Str
  listed key m = elim (Assoc.get key m) [ none ↦ [] | some set ↦ iterate set ]

  pub members_read :
      (key : Str) (m : MemorySets) → Process.set_members iterate key m ≡ (ok (listed key m), m)
  unfolding Process.set_members
  members_read key m = ground arith

  pub contains-listed :
      (key x : Str) (m : MemorySets)
      → ((y : Str) (set : List Str) → contains y (iterate set) ≡ contains y set)
      → contains x (listed key m) ≡ has m key x
  unfolding members_of
  contains-listed key x m fair = elim (Option-cases (Assoc.get key m)) [
    | inl gone ↦ ground arith
    | inr (set, there) ↦ ground (arith, fair x set)
  ]

  key-pair :
      (f g v u : Str)
      → IsField ks f
      → IsField ks g
      → str_eq (Keyspace.idx_by_field ks g u) (Keyspace.idx_by_field ks f v)
        ≡ str_eq (pair g u) (pair f v)
  unfolding pair
  key-pair f g v u hf hg = ground (
    arith,
    str_eq_iff (Keyspace.idx_by_field ks g u) (Keyspace.idx_by_field ks f v),
    str_eq_iff (pair g u) (pair f v),
    by_field-injective ks g f u v hg hf,
    segment-injective b'=' g f u v hg.0 hf.0,
    same_key,
    same_pair,
  )
    where
      same_key : g ≡ f → u ≡ v → Keyspace.idx_by_field ks g u ≡ Keyspace.idx_by_field ks f v
      same_key a b = cc (a, b)

      same_pair : g ≡ f → u ≡ v → pair g u ≡ pair f v
      same_pair a b = cc (a, b)

  pub names-pairs :
      (f v : Str) (indexes : Map Str)
      → IsField ks f
      → All (λ e. IsField ks e.0) indexes
      → names (Keyspace.idx_by_field ks f v) indexes ≡ contains (pair f v) (pairs_of indexes)
  unfolding pair
  names-pairs f v [] hf h = refl
  names-pairs f v ((g, u) ∷ indexes) hf (hg, h) =
      ground (arith, key-pair f g v u hf hg, names-pairs f v indexes hf h)

  pub records-contains :
      (f v : Str) (previous : List Str)
      → IsField ks f
      → contains (pair f v) previous ≡ true
      → records (Keyspace.idx_by_field ks f v) previous ≡ true
  unfolding recorded_key
  records-contains f v [] hf e = absurd (ground arith)
  records-contains f v (p ∷ previous) hf e = elim (Bool-cases (str_eq p (pair f v))) [
    | inl same ↦ ground (
      arith,
      str_eq_iff p (pair f v),
      read_back p ((str_eq_iff p (pair f v)).0 same),
      str_eq_refl (Keyspace.idx_by_field ks f v),
    )
    | inr other ↦ ground (arith, records-contains f v previous hf)
  ]
    where
      read_back : (p : Str) → p ≡ pair f v → recorded_key ks p ≡ Keyspace.idx_by_field ks f v
      read_back p same =
          ap (λ q. Keyspace.idx_by_field ks (split_pair q).0 (split_pair q).1) same
          ∙ ap (λ r. Keyspace.idx_by_field ks r.0 r.1) ((split_pair-pair f v).1 hf.0)

  pub contains-unwanted :
      (x : Str) (wanted previous : List Str)
      → contains x (unwanted wanted previous) ≡ (contains x previous && not (contains x wanted))
  contains-unwanted x wanted [] = ground arith
  contains-unwanted x wanted (p ∷ previous) =
      ground (arith, contains-unwanted x wanted previous, str_eq_iff p x)
