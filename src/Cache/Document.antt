-- ===== src/Cache/Document.antt =====
-- cache/src/core/document.rs and sets.rs: the Document contract and the Sets capability.
use runtime_rs.Base.{ℕ, List, Str, Bytes}
use runtime_rs.Cache.Outcome.{Exec}
use runtime_rs.Cache.Policy.{Options}

-- `get` returns what a success writes to `dest`.
pub record Document (S : Type 0) : Type 0 where
  pub create : Bytes → Options → Exec S Str
  pub get : Str → Exec S Bytes
  pub update : Str → Bytes → Options → Exec S Unit
  pub delete : Str → Exec S Unit
  pub keys : Exec S (List Str)
  pub list : Exec S (List Bytes)
  pub ttl : Str → Exec S ℕ
