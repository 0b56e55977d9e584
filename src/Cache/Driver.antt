-- ===== src/Cache/Driver.antt =====
-- cache/src/core/{driver,bulk,leases,fenced}.rs: the capability traits, over a shared state `S`.
use runtime_rs.Base.{ℕ, Bool, List, Option, Str, Bytes}
use runtime_rs.Cache.Outcome.{Exec}

pub record Driver (S : Type 0) : Type 0 where
  pub get : Str → Exec S Bytes
  pub set : Str → Bytes → ℕ → Exec S Unit
  pub add : Str → Bytes → ℕ → Exec S Bool
  pub replace : Str → Bytes → ℕ → Exec S Bool
  pub delete : List Str → Exec S Unit
  pub exists : Str → Exec S Bool
  pub touch : Str → ℕ → Exec S Unit

pub record Bulk (S : Type 0) : Type 0 where
  pub get_many : List Str → Exec S (List (Option Bytes))
  pub exists_many : List Str → Exec S (List Bool)

pub record Leases (S : Type 0) : Type 0 where
  pub ttl : Str → Exec S ℕ

pub record Fenced (S : Type 0) : Type 0 where
  pub delete_if : Str → Bytes → Exec S Bool
