-- ===== src/Grpc/Idempotency/Contract.antt =====
-- grpc/src/idempotency/mod.rs: the record of a claim, and the contract of a store.
use runtime_rs.Base.{ℕ, Option, Str, Bytes, codes}
use runtime_rs.Grpc.Status.{Result}

pub data KeyState : Type 0 where
  in_flight done : KeyState

pub record Key : Type 0 where
  pub name : Str
  pub method : Str
  pub request_id : Str
  pub state : KeyState
  pub response : Bytes
  pub response_type : Str
  pub create_time : Option ℕ

pub data StoreError : Type 0 where
  not_found : StoreError
  backend : Str → StoreError

-- `Display` of the error.
abbrev pub error_text : StoreError → Str
error_text not_found = codes "idempotency: key not found"
error_text (backend text) = text

abbrev pub Exec : Type 0 → Type 0 → Type 0
Exec S A = S → Result StoreError A × S

pub record Store (S : Type 0) : Type 0 where
  pub create : Key → Exec S Unit
  pub get : Str → Exec S Key
  pub settle : Key → Exec S Unit
  pub delete : Str → Exec S Unit
