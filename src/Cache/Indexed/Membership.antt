-- ===== src/Cache/Indexed/Membership.antt =====
-- In which secondary sets an id is after it has been filed, refiled or unfiled.
use runtime_rs.Base.{
  ◌≡◌, refl, ◌&&◌, ◌||◌, not, if◌then◌else◌, true, false, List, [], ◌∷◌, Str, any, All, str_eq,
  str_eq_iff, arith,
}
use runtime_rs.Base.Assoc.{Map}
use runtime_rs.Cache.Outcome.{ok}
use runtime_rs.Cache.Sets as Process
use runtime_rs.Cache.Sets.{MemorySets, contains}
use runtime_rs.Cache.Sets.Members.{has, has-set_remove, set_remove-ok}
use runtime_rs.Cache.Keyspace
use runtime_rs.Cache.Keyspace.{Keyspace}
use runtime_rs.Cache.Indexed
use runtime_rs.Cache.Indexed.{pair, pairs_of}
use runtime_rs.Cache.Indexed.Records.{IsField, by_field_differs, fields-injective}
use runtime_rs.Cache.Indexed.Filing.{
  sets, unwanted, listed, members_read, contains-listed, names-pairs, records-contains,
  contains-unwanted, file-has, unfile_each-has, drop_each-has, prune-has,
}

-- Every membership in a secondary set is recorded with its id.
abbrev pub IsRecorded : Keyspace → MemorySets → Type 0
IsRecorded ks m =
    (id f v : Str)
    → IsField ks f
    → has m (Keyspace.idx_by_field ks f v) id ≡ true
    → has m (Keyspace.idx_fields ks id) (pair f v) ≡ true

-- Iterating over a hash set gives its members, in any order.
abbrev pub IsFair : (List Str → List Str) → Type 0
IsFair iterate = (y : Str) (set : List Str) → contains y (iterate set) ≡ contains y set

-- No recorded pair stands for the record of an id.
fields_kept :
    (ks : Keyspace) (x : Str) (ps : List Str)
    → any (λ p. str_eq (Indexed.recorded_key ks p) (Keyspace.idx_fields ks x)) ps ≡ false
unfolding Indexed.recorded_key
fields_kept ks x [] = refl
fields_kept ks x (p ∷ ps) =
    let (f, v) = Indexed.split_pair p in
    ground (
      arith,
      fields_kept ks x ps,
      by_field_differs ks x f v,
      str_eq_iff (Keyspace.idx_fields ks x) (Keyspace.idx_by_field ks f v),
      str_eq_iff (Keyspace.idx_by_field ks f v) (Keyspace.idx_fields ks x),
    )

module _ (ks : Keyspace) (iterate : List Str → List Str) (fair : IsFair iterate) (m : MemorySets)
    (recorded : IsRecorded ks m) (id : Str) where
  abbrev previous : List Str
  previous = listed ks iterate (Keyspace.idx_fields ks id) m

  abbrev undone : MemorySets
  undone = (Indexed.unfile_each ks (sets ks iterate) id previous m).1

  unfile_runs :
      Indexed.unfile ks (sets ks iterate) id m
      ≡ (ok tt, (Process.set_remove (Keyspace.idx_fields ks id) previous undone).1)
  unfolding Indexed.unfile
  unfile_runs = ground (
    arith,
    members_read ks iterate (Keyspace.idx_fields ks id) m,
    unfile_each-has ks iterate id [] [] previous m,
    set_remove-ok (Keyspace.idx_fields ks id) previous undone,
  )

  -- Over the sets of one process, whose iteration gives every member, where every membership is
  -- recorded, `unfile` takes the id out of every secondary set whose field has a plain name, and no
  -- other id out of any of them.
  pub unfile_exact :
      (f v x : Str)
      → IsField ks f
      → ((Indexed.unfile ks (sets ks iterate) id m).0 ≡ ok tt)
        × (has (Indexed.unfile ks (sets ks iterate) id m).1 (Keyspace.idx_by_field ks f v) x
            ≡ (has m (Keyspace.idx_by_field ks f v) x && not (str_eq id x)))
  unfile_exact f v x hf =
      let j = Keyspace.idx_by_field ks f v in
      ground (
        arith,
        unfile_runs,
        has-set_remove undone (Keyspace.idx_fields ks id) j x previous,
        by_field_differs ks id f v,
        unfile_each-has ks iterate id j x previous m,
        records-contains ks iterate f v previous hf,
        contains-listed ks iterate (Keyspace.idx_fields ks id) (pair f v) m fair,
        recorded id f v hf,
        str_eq_iff id x,
      )

  -- After it every membership is recorded still.
  pub unfile-IsRecorded : IsRecorded ks (Indexed.unfile ks (sets ks iterate) id m).1
  unfile-IsRecorded x f v hf there =
      let j = Keyspace.idx_fields ks x in
      ground (
        arith,
        unfile_exact f v x hf,
        unfile_runs,
        fields-injective ks id x,
        str_eq_iff id x,
        has-set_remove undone (Keyspace.idx_fields ks id) j (pair f v) previous,
        unfile_each-has ks iterate id j (pair f v) previous m,
        recorded x f v hf,
        fields_kept ks x previous,
      )

  -- Filing an id under plain field names puts it into exactly the named sets besides those that it is
  -- in, and no other id into any.
  pub file_exact :
      (indexes : Map Str) (f v x : Str)
      → All (λ e. IsField ks e.0) indexes
      → IsField ks f
      → ((Indexed.file ks (sets ks iterate) id indexes m).0 ≡ ok tt)
        × (has (Indexed.file ks (sets ks iterate) id indexes m).1 (Keyspace.idx_by_field ks f v) x
            ≡ (has m (Keyspace.idx_by_field ks f v) x
                || (contains (pair f v) (pairs_of indexes) && str_eq id x)))
  file_exact indexes f v x plain hf =
      let j = Keyspace.idx_by_field ks f v in
      ground (
        arith,
        file-has ks iterate id j x indexes m,
        by_field_differs ks id f v,
        names-pairs ks iterate f v indexes hf plain,
      )

  -- After it every membership is recorded still.
  pub file-IsRecorded :
      (indexes : Map Str)
      → All (λ e. IsField ks e.0) indexes
      → IsRecorded ks (Indexed.file ks (sets ks iterate) id indexes m).1
  file-IsRecorded indexes plain x f v hf there =
      let j = Keyspace.idx_fields ks x in
      ground (
        arith,
        file_exact indexes f v x plain hf,
        file-has ks iterate id j (pair f v) indexes m,
        fields-injective ks id x,
        str_eq_iff id x,
        recorded x f v hf,
      )

  -- Over the sets of one process, whose iteration gives every member, let every membership of an id
  -- under a field with a plain name be recorded among the id's own pairs, and let all fields that
  -- are asked for have plain names. Then `refile` ends well; after it the id is, of the secondary
  -- sets of plain fields, in exactly the ones that were asked for, whichever of them it was in
  -- before; and no other id has moved there.
  pub refile_exact :
      (indexes : Map Str) (f v x : Str)
      → All (λ e. IsField ks e.0) indexes
      → IsField ks f
      → ((Indexed.refile ks (sets ks iterate) id indexes m).0 ≡ ok tt)
        × (has (Indexed.refile ks (sets ks iterate) id indexes m).1 (Keyspace.idx_by_field ks f v) x
            ≡ (if str_eq id x
                then contains (pair f v) (pairs_of indexes)
                else has m (Keyspace.idx_by_field ks f v) x))
  unfolding Indexed.refile
  refile_exact indexes f v x plain hf =
      let j = Keyspace.idx_by_field ks f v in
      let gone = unwanted (pairs_of indexes) previous in
      let dropped = (Indexed.drop_each ks (sets ks iterate) id (pairs_of indexes) previous m).1 in
      let pruned = (Indexed.prune ks (sets ks iterate) id gone dropped).1 in
      ground (
        arith,
        members_read ks iterate (Keyspace.idx_fields ks id) m,
        drop_each-has ks iterate id j x (pairs_of indexes) previous m,
        prune-has ks iterate id j x gone dropped,
        file-has ks iterate id j x indexes pruned,
        by_field_differs ks id f v,
        names-pairs ks iterate f v indexes hf plain,
        records-contains ks iterate f v gone hf,
        contains-unwanted ks iterate (pair f v) (pairs_of indexes) previous,
        contains-listed ks iterate (Keyspace.idx_fields ks id) (pair f v) m fair,
        recorded id f v hf,
        str_eq_iff id x,
      )
