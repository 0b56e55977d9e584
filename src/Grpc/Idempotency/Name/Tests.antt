-- ===== src/Grpc/Idempotency/Name/Tests.antt =====
-- Key names at a concrete input.
use runtime_rs.Base.{◌≡◌, refl, codes, arith}
use runtime_rs.Grpc.Idempotency.Name.{digest_input, as_bytes, utf8, key_name-injective}

key_name-injective_example : (codes "/A" ≡ codes "/A") × (codes "4" ≡ codes "4")
unfolding digest_input as_bytes utf8
key_name-injective_example =
    key_name-injective (λ input. input) (codes "/A") (codes "/A") (codes "4") (codes "4")
      (ground arith) (ground arith) (λ same. same)
      (ground arith, ground arith, ground arith, ground arith) (ground arith) (ground arith) refl
