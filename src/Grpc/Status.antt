-- ===== src/Grpc/Status.antt =====
-- The gRPC status as the interceptors use it (tonic::Status), and results that carry an error.
use runtime_rs.Base.{Option, none, Str}

-- tonic::Code, as far as the modelled code names it.
pub data Code : Type 0 where
  aborted internal invalid_argument unknown : Code

-- `info` is the reason and the domain of an attached `ErrorInfo`.
pub record Status : Type 0 where
  pub code : Code
  pub message : Str
  pub info : Option (Str × Str)

abbrev pub new : Code → Str → Status
new code message = record { code = code; message = message; info = none }

pub data Result {ℓ} (E A : Type ℓ) : Type ℓ where
  ok : A → Result E A
  err : E → Result E A
