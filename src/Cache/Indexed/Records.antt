-- ===== src/Cache/Indexed/Records.antt =====
-- The records by which memberships in secondary sets are undone, over the sets in memory.
use runtime_rs.Base.{
  Option-cases, length-append, ◌≡◌, ap, false, ◌∷◌, ◌++◌, Str, codes, Lacks, split_once,
  split_once-join, Lacks-split_once, str_eq, str_eq_iff, arith, append-left_cancel, inl, inr, ◌↔◌,
}
use runtime_rs.Cache.Keyspace
use runtime_rs.Cache.Keyspace.{Keyspace}
use runtime_rs.Cache.Keyspace.Families.{idx_by_field, idx_fields, qualify-injective}
use runtime_rs.Cache.Indexed.{pair, split_pair}

-- A recorded pair is read back as the field and the value, if the field's name holds no equals
-- sign, and otherwise it is not.
pub split_pair-pair :
    (field value : Str) → (split_pair (pair field value) ≡ (field, value)) ↔ Lacks b'=' field
unfolding split_pair pair
split_pair-pair field value = (
  λ e. elim (Option-cases (split_once b'=' (field ++ (b'=' ∷ value)))) [
    | inl gone ↦ ground (arith, length-append field (b'=' ∷ value))
    | inr ((x, y), there) ↦
        ground (arith, Lacks-split_once b'=' (field ++ (b'=' ∷ value)) x y there)
  ],
  λ h. ground (arith, split_once-join b'=' field value h),
)

module _ (ks : Keyspace) where
  pub by_field_differs :
      (id f v : Str) → str_eq (Keyspace.idx_fields ks id) (Keyspace.idx_by_field ks f v) ≡ false
  unfolding Keyspace.idx_fields Keyspace.idx_by_field
  by_field_differs id f v = ground (
    arith,
    str_eq_iff (ks.base ++ (codes "idx:fields:" ++ id))
        (ks.base ++ (codes "idx:by:" ++ (f ++ (codes ":" ++ v)))),
    append-left_cancel ks.base (codes "idx:fields:" ++ id)
        (codes "idx:by:" ++ (f ++ (codes ":" ++ v))),
  )

  -- A name that can be the name of a field.
  abbrev pub IsField : Str → Type 0
  IsField f = Lacks b'=' f × Lacks b':' f

  pub by_field-injective :
      (f g u v : Str)
      → IsField f
      → IsField g
      → Keyspace.idx_by_field ks f u ≡ Keyspace.idx_by_field ks g v
      → (f ≡ g) × (u ≡ v)
  by_field-injective f g u v hf hg e =
      ground (arith, qualify-injective ks (idx_by_field f u) (idx_by_field g v) hf.1 hg.1 e)

  pub fields-injective :
      (a b : Str) → str_eq (Keyspace.idx_fields ks a) (Keyspace.idx_fields ks b) ≡ str_eq a b
  fields-injective a b = ground (
    arith,
    str_eq_iff (Keyspace.idx_fields ks a) (Keyspace.idx_fields ks b),
    str_eq_iff a b,
    same_id,
    ap (Keyspace.idx_fields ks),
  )
    where
      same_id : Keyspace.idx_fields ks a ≡ Keyspace.idx_fields ks b → a ≡ b
      same_id e = ground (arith, qualify-injective ks (idx_fields a) (idx_fields b) tt tt e)
