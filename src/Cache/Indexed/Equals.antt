-- ===== src/Cache/Indexed/Equals.antt =====
-- What becomes of a field whose name holds an equals sign.
use runtime_rs.Base.{
  split_once-joined, ◌≡◌, ◌≢◌, refl, sym, ◌∙◌, ap, true, false, List, [], ◌∷◌, ◌++◌, Option, none,
  some, Str, Lacks, Lacks-split_once, split_once, contains_char, codes, str_eq, str_eq_iff,
  str_eq_refl, arith, Bool-cases, Option-cases, inl, inr, append-left_cancel,
}
use runtime_rs.Base.Assoc
use runtime_rs.Base.Assoc.{Map}
use runtime_rs.Cache.Sets.{contains, members_of}
use runtime_rs.Cache.Sets.Members.{has, has-set_remove}
use runtime_rs.Cache.Keyspace
use runtime_rs.Cache.Keyspace.{Keyspace}
use runtime_rs.Cache.Indexed
use runtime_rs.Cache.Indexed.{pair, split_pair, recorded_key}
use runtime_rs.Cache.Indexed.Records.{by_field_differs}
use runtime_rs.Cache.Indexed.Filing.{
  sets, listed, records, members_read, contains-listed, file-has, unfile_each-has,
}
use runtime_rs.Cache.Indexed.Membership.{IsFair}

-- One text cannot be split at two places by both signs.
split_differs :
    (x y f v : Str)
    → Lacks b'=' x
    → contains_char b'=' f ≡ true
    → x ++ (b'=' ∷ y) ≡ f ++ (b'=' ∷ v)
    → x ++ (b':' ∷ y) ≢ f ++ (b':' ∷ v)
unfolding contains_char
split_differs x y [] v h e same there = ground arith
split_differs [] y (c ∷ f) v h e same there = ground arith
split_differs (a ∷ x) y (c ∷ f) v h e same there =
    split_differs x y f v h.1 (ground arith) (ground arith) (ground arith)

module _ (ks : Keyspace) where
  misread :
      (f v : Str)
      → contains_char b'=' f ≡ true
      → str_eq (recorded_key ks (pair f v)) (Keyspace.idx_by_field ks f v) ≡ false
  unfolding recorded_key split_pair pair Keyspace.idx_by_field
  misread f v h = elim (Option-cases (split_once b'=' (f ++ (b'=' ∷ v)))) [
    | inl gone ↦ absurd (split_once-joined b'=' f v gone)
    | inr ((x, y), there) ↦
        elim (Bool-cases (str_eq (recorded_key ks (pair f v)) (Keyspace.idx_by_field ks f v))) [
          | inl same ↦
              let parts = Lacks-split_once b'=' (f ++ (b'=' ∷ v)) x y there in
              let bodies = append-left_cancel ks.base _ _ (
                ap (λ o. ks.base ++ (codes "idx:by:" ++ ((part o).0 ++ (codes ":" ++ (part o).1))))
                  (sym there)
                ∙ (str_eq_iff _ _).0 same) in
              absurd (
                split_differs x y f v parts.0 h parts.1
                  (append-left_cancel (codes "idx:by:") _ _ bodies))
          | inr d ↦ d
        ]
  ]
    where
      part : Option (Str × Str) → Str × Str
      part o = elim o [ none ↦ (pair f v, []) | some parts ↦ parts ]

  only_records :
      (iterate : List Str → List Str) (j q : Str) (ps : List Str)
      → ((y : Str) → contains y ps ≡ true → q ≡ y)
      → str_eq (recorded_key ks q) j ≡ false
      → records ks iterate j ps ≡ false
  only_records iterate j q [] h e = refl
  only_records iterate j q (p ∷ ps) h e =
      let first : str_eq (recorded_key ks p) j ≡ false =
        ap (λ r. str_eq (recorded_key ks r) j) (sym (h p (ground (arith, str_eq_refl p)))) ∙ e in
      ground (arith, first, only_records iterate j q ps (λ y c. h y (ground (arith, c))) e)

  filed_pair :
      (iterate : List Str → List Str) (id f v : Str)
      → IsFair iterate
      → (y : Str)
      → contains y (
          listed ks iterate
            (Keyspace.idx_fields ks id)
            (Indexed.file ks (sets ks iterate) id ((f, v) ∷ []) []).1)
        ≡ true
      → pair f v ≡ y
  unfolding members_of Assoc.get
  filed_pair iterate id f v fair y c =
      let fields = Keyspace.idx_fields ks id in
      let filed = (Indexed.file ks (sets ks iterate) id ((f, v) ∷ []) []).1 in
      ground (
        arith,
        contains-listed ks iterate fields y filed fair,
        file-has ks iterate id fields y ((f, v) ∷ []) [],
        by_field_differs ks id f v,
        str_eq_iff fields (Keyspace.idx_by_field ks f v),
        str_eq_iff (Keyspace.idx_by_field ks f v) fields,
        str_eq_iff (pair f v) y,
      )

  -- Let an id be filed into empty sets of one process, whose iteration gives every member, under
  -- one field, whose name has an equals sign. When it is unfiled next, it stays in that field's
  -- secondary set: the pair that records the membership is not read back as it was written.
  pub unfile_misses :
      (iterate : List Str → List Str) (id f v : Str)
      → IsFair iterate
      → contains_char b'=' f ≡ true
      → has
          (Indexed.unfile ks
            (sets ks iterate)
            id
            (Indexed.file ks (sets ks iterate) id ((f, v) ∷ []) []).1).1
          (Keyspace.idx_by_field ks f v)
          id
        ≡ true
  unfolding Indexed.unfile
  unfile_misses iterate id f v fair h =
      let j = Keyspace.idx_by_field ks f v in
      let fields = Keyspace.idx_fields ks id in
      let filed = (Indexed.file ks (sets ks iterate) id ((f, v) ∷ []) []).1 in
      let previous = listed ks iterate fields filed in
      ground (
        arith,
        members_read ks iterate fields filed,
        unfile_each-has ks iterate id j id previous filed,
        has-set_remove (Indexed.unfile_each ks (sets ks iterate) id previous filed).1 fields j id
            previous,
        by_field_differs ks id f v,
        file-has ks iterate id j id ((f, v) ∷ []) [],
        str_eq_refl id,
        str_eq_refl j,
        only_records iterate j (pair f v) previous (filed_pair iterate id f v fair) (misread f v h),
      )
