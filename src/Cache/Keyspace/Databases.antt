-- ===== src/Cache/Keyspace/Databases.antt =====
-- The keys of two databases of one application do not meet.
use mathlib.Core.List.{append_assoc}
use runtime_rs.Base.{
  ℕ, ◌∷◌, ◌++◌, ◌≡◌, sym, refl, ◌⊎◌, inl, inr, ◌∙◌, Str, codes, append-left_cancel, Lacks,
  segment-injective, Bool, true, false, arith, Lacks-of_not_contains,
}
use runtime_rs.Base.Decimal.{decimal, decimal-injective, Lacks-decimal}
use runtime_rs.Cache.Outcome.{ok}
use runtime_rs.Cache.Keyspace
use runtime_rs.Cache.Keyspace.{Keyspace, check_namespace, segment, is_empty}

-- A name that `check_namespace` lets through has no colon, and is not empty.
pub record IsName (name : Str) : Type 0 where
  pub no_colon : Lacks 58 name
  pub not_empty : is_empty name ≡ false

pub IsName-of_checked : (name : Str) → check_namespace name ≡ ok tt → IsName name
unfolding check_namespace
IsName-of_checked name h = record {
  no_colon = Lacks-of_not_contains 58 name (ground arith);
  not_empty = ground arith;
}

index_part : Bool → ℕ → Str → Str
index_part true i rest = codes "db" ++ (decimal i ++ (58 ∷ rest))
index_part false i rest = rest

head_parts :
    (prefix m : Str) (i : ℕ) (embed : Bool) (x : Str)
    → is_empty m ≡ false
    → Keyspace.head (Keyspace.new prefix m i embed) ++ x
      ≡ segment prefix ++ (m ++ (58 ∷ index_part embed i (codes "cache:" ++ x)))
unfolding Keyspace.head Keyspace.new index_part
head_parts prefix m i true x h = rw h (simp append_assoc)
head_parts prefix m i false x h = rw h (simp append_assoc)

same_index :
    (i j : ℕ) (embed : Bool) (x y : Str)
    → index_part embed i x ≡ index_part embed j y
    → (embed ≡ false) ⊎ (i ≡ j)
unfolding index_part
same_index i j false x y e = inl refl
same_index i j true x y e = inr (
    decimal-injective i j
      (segment-injective 58 (decimal i) (decimal j) x y (Lacks-decimal i) (Lacks-decimal j)
        (append-left_cancel (codes "db") _ _ e)).0)

-- Two selections of a database with the same prefix, on a backend that keeps the index in the key
-- or leaves it out: where some key of the one is some key of the other, the names are the same,
-- and so are the indices, unless the key leaves them out.
pub same_database :
    (prefix m n : Str) (i j : ℕ) (embed : Bool) (x y : Str)
    → IsName m
    → IsName n
    → Keyspace.head (Keyspace.new prefix m i embed) ++ x
      ≡ Keyspace.head (Keyspace.new prefix n j embed) ++ y
    → (m ≡ n) × ((embed ≡ false) ⊎ (i ≡ j))
same_database prefix m n i j embed x y hm hn e =
    let bodies = append-left_cancel (segment prefix) _ _ (
      sym (head_parts prefix m i embed x hm.not_empty)
      ∙ e
      ∙ head_parts prefix n j embed y hn.not_empty) in
    let parts = segment-injective 58 m n _ _ hm.no_colon hn.no_colon bodies in
    (parts.0, same_index i j embed _ _ parts.1)
