-- ===== src/Cache/Keyspace.antt =====
-- cache/src/core/keyspace.rs: how the strategies name their keys, and which database names pass.
pub mod Families
pub mod Databases
mod Tests
use runtime_rs.Base.{
  ℕ, if◌then◌else◌, Bool, true, false, List, [], ◌∷◌, ◌++◌, Str, codes, str_eq, contains_char, any,
  ◌||◌, ◌==◌, not, Option, none, some,
}
use runtime_rs.Base.Decimal.{decimal}
use runtime_rs.Cache.Outcome.{Outcome, ok, err, internal}

pub record Keyspace : Type 0 where
  pub base : Str

abbrev is_empty : Str → Bool
is_empty [] = true
is_empty (_ ∷ _) = false

-- A segment that is there is closed by a colon.
segment : Str → Str
segment s = if is_empty s then [] else s ++ codes ":"

pub new : Str → Str → ℕ → Bool → Keyspace
unfolding segment decimal
new prefix namespace db embed_db = record {
  base =
      segment prefix
      ++ (segment namespace
          ++ ((if embed_db then codes "db" ++ (decimal db ++ codes ":") else [])
              ++ codes "cache:"));
}

pub head : Keyspace → Str
head ks = ks.base

unfoldable pub doc_entry : Keyspace → Str → Str
doc_entry ks id = ks.base ++ (codes "doc:entry:" ++ id)

unfoldable pub doc_index : Keyspace → Str
doc_index ks = ks.base ++ codes "doc:index"

unfoldable pub vol_entry : Keyspace → Str → Str
vol_entry ks key = ks.base ++ (codes "vol:" ++ key)

unfoldable pub vol_prefix : Keyspace → Str
vol_prefix ks = ks.base ++ codes "vol:"

unfoldable pub idx_entry : Keyspace → Str → Str
idx_entry ks id = ks.base ++ (codes "idx:entry:" ++ id)

unfoldable pub idx_index : Keyspace → Str
idx_index ks = ks.base ++ codes "idx:index"

unfoldable pub idx_by_field : Keyspace → Str → Str → Str
idx_by_field ks field value = ks.base ++ (codes "idx:by:" ++ (field ++ (codes ":" ++ value)))

unfoldable pub idx_fields : Keyspace → Str → Str
idx_fields ks id = ks.base ++ (codes "idx:fields:" ++ id)

unfoldable pub aside_entry : Keyspace → Str → Str
aside_entry ks id = ks.base ++ (codes "aside:entry:" ++ id)

unfoldable pub aside_lock : Keyspace → Str → Str
aside_lock ks id = ks.base ++ (codes "aside:lock:" ++ id)

-- scanner.rs: a backslash before each character that a glob reads.
is_glob : ℕ → Bool
is_glob c = c == b'*' || (c == b'?' || (c == b'[' || (c == b']' || c == 92)))

unfoldable pub escape_glob_literal : Str → Str
unfolding is_glob
escape_glob_literal [] = []
escape_glob_literal (c ∷ s) =
    let rest = escape_glob_literal s in if is_glob c then 92 ∷ c ∷ rest else c ∷ rest

unfoldable pub vol_pattern : Keyspace → Str → Str
unfolding vol_prefix escape_glob_literal
vol_pattern ks glob = escape_glob_literal (vol_prefix ks) ++ glob

-- The messages: the text of the source, with the name put in.
empty_name : Str
empty_name = codes "database name cannot be empty"

colon_in_name : Str → Str
colon_in_name name =
    codes "database name '" ++ (name ++ codes "' cannot contain ':' (separates prefix from name)")

unfoldable pub check_namespace : Str → Outcome (Unit {0})
unfolding empty_name colon_in_name
check_namespace name =
    if is_empty name
    then err (internal empty_name)
    else if contains_char b':' name
    then err (internal (colon_in_name name))
    else ok tt

-- `{known:?}` is how `Vec<String>` prints for debugging.
module _ (debug_print : List Str → Str) where
  unknown_name : Str → List Str → Str
  unknown_name name known =
      codes "database '"
      ++ (name ++ (codes "' is not one of the configured databases " ++ debug_print known))

  unfoldable pub check_known : Str → List Str → Outcome (Unit {0})
  unfolding unknown_name
  check_known name [] = ok tt
  check_known name (k ∷ known) =
      if any (λ candidate. str_eq candidate name) (k ∷ known)
      then ok tt
      else err (internal (unknown_name name (k ∷ known)))
