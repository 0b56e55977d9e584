-- ===== src/Cache/Keyspace/Families.antt =====
-- The key families of one database do not meet.
use runtime_rs.Base.{
  ◌++◌, ◌≡◌, refl, sym, ◌∙◌, Str, codes, append-left_cancel, Lacks, segment-injective, arith,
}
use runtime_rs.Cache.Keyspace
use runtime_rs.Cache.Keyspace.{Keyspace}

-- Every key that a strategy may write in a database.
pub data Key : Type 0 where
  doc_entry vol_entry idx_entry idx_fields aside_entry aside_lock : Str → Key
  doc_index idx_index : Key
  idx_by_field : (field value : Str) → Key

abbrev pub qualify : Keyspace → Key → Str
qualify ks (doc_entry id) = Keyspace.doc_entry ks id
qualify ks (vol_entry key) = Keyspace.vol_entry ks key
qualify ks (idx_entry id) = Keyspace.idx_entry ks id
qualify ks (idx_fields id) = Keyspace.idx_fields ks id
qualify ks (aside_entry id) = Keyspace.aside_entry ks id
qualify ks (aside_lock id) = Keyspace.aside_lock ks id
qualify ks doc_index = Keyspace.doc_index ks
qualify ks idx_index = Keyspace.idx_index ks
qualify ks (idx_by_field field value) = Keyspace.idx_by_field ks field value

-- What follows the base.
tail : Key → Str
tail (doc_entry id) = codes "doc:entry:" ++ id
tail (vol_entry key) = codes "vol:" ++ key
tail (idx_entry id) = codes "idx:entry:" ++ id
tail (idx_fields id) = codes "idx:fields:" ++ id
tail (aside_entry id) = codes "aside:entry:" ++ id
tail (aside_lock id) = codes "aside:lock:" ++ id
tail doc_index = codes "doc:index"
tail idx_index = codes "idx:index"
tail (idx_by_field field value) = codes "idx:by:" ++ (field ++ (codes ":" ++ value))

qualify-tail : (ks : Keyspace) (a : Key) → qualify ks a ≡ ks.base ++ tail a
unfolding tail Keyspace.doc_entry Keyspace.vol_entry Keyspace.idx_entry Keyspace.idx_fields
    Keyspace.aside_entry Keyspace.aside_lock Keyspace.doc_index Keyspace.idx_index
    Keyspace.idx_by_field
qualify-tail ks (doc_entry id) = refl
qualify-tail ks _ = refl

-- The field name of a secondary index holds no colon.
abbrev pub IsPlain : Key → Type 0
IsPlain (idx_by_field field value) = Lacks 58 field
IsPlain _ = Unit

tail-injective : (a b : Key) → IsPlain a → IsPlain b → tail a ≡ tail b → a ≡ b
unfolding tail
tail-injective (idx_by_field f v) (idx_by_field g u) p q e =
    let r =
      segment-injective 58 f g v u p q
        (append-left_cancel (codes "idx:by:") (f ++ (codes ":" ++ v)) (g ++ (codes ":" ++ u)) e) in
    cc (r.0, r.1)
tail-injective (doc_entry x) (doc_entry y) p q e = cc
tail-injective a b p q e = ground arith

-- Two keys of one database, of any families, are spelled alike only if they are the same key of
-- the same family, where no name of an index field holds a colon.
pub qualify-injective :
    (ks : Keyspace) (a b : Key) → IsPlain a → IsPlain b → qualify ks a ≡ qualify ks b → a ≡ b
qualify-injective ks a b p q e =
    tail-injective a b p q (
      append-left_cancel ks.base (tail a) (tail b)
        (sym (qualify-tail ks a) ∙ e ∙ qualify-tail ks b))
