-- ===== src/Grpc/Idempotency/Claims.antt =====
-- Which calls the interceptor takes up, and what it does with those that it does not.
use runtime_rs.Base.{◌≡◌, ◌⊎◌, true, false, none, some, [], Str, Bytes, arith}
use runtime_rs.Grpc.Status.{Status, ok, err}
use runtime_rs.Grpc.Call
use runtime_rs.Grpc.Call.{Reflection, Exec, MethodDescriptor, UnaryCall, UnaryReply, Handler}
use runtime_rs.Grpc.Idempotency
use runtime_rs.Grpc.Idempotency.{
  IdempotencyInterceptor, is_empty, field, string_field, bool_field, new_key, claim_and_run,
}

module _ (R : Reflection) where
  open R use {FieldDescriptor, DynamicMessage}

  -- The call asks for idempotency under this id.
  pub record IsKeyed (call : UnaryCall R) (id : Str) : Type 0 where
    pub method : MethodDescriptor R
    pub described : call.descriptor ≡ some method
    pub fd : FieldDescriptor
    pub declared : field R R.is_string method.input Idempotency.request_id_field ≡ some fd
    pub request : DynamicMessage
    pub decoded : Call.message R call ≡ ok request
    pub named : string_field R request Idempotency.request_id_field ≡ id
    pub not_empty : is_empty id ≡ false
    pub is_write : bool_field R request Idempotency.validate_only_field ≡ false

  -- The reasons for which a call is passed on as it is.
  abbrev pub IsUnkeyed : UnaryCall R → Type 0
  IsUnkeyed call =
      (call.descriptor ≡ none)
      ⊎ ((method : MethodDescriptor R) × (call.descriptor ≡ some method)
          × ((field R R.is_string method.input Idempotency.request_id_field ≡ none)
              ⊎ (((status : Status) × (Call.message R call ≡ err status))
                  ⊎ ((request : DynamicMessage) × (Call.message R call ≡ ok request)
                      × ((string_field R request Idempotency.request_id_field ≡ [])
                          ⊎ (bool_field R request Idempotency.validate_only_field ≡ true))))))

  module _ {S : Type 0} (sha256 : Bytes → Bytes) (i : IdempotencyInterceptor S) (call : UnaryCall R)
      (next : Handler R S) (s : S) where
    -- A call that asks for idempotency claims the key of its path and id before the service may run.
    pub keyed_claims :
        (id : Str) (k : IsKeyed call id)
        → Idempotency.intercept R sha256 i call next s
          ≡ claim_and_run R i (new_key sha256 call.path id) (some k.method.output) (next call) s
    unfolding Idempotency.intercept
    keyed_claims id k =
        ground (arith, k.described, k.declared, k.decoded, k.named, k.not_empty, k.is_write)

    -- A call without a registered descriptor, without the field, whose message does not decode, with
    -- an empty id, or that only validates, is passed on as it is: the store is not touched.
    pub unkeyed_passes : IsUnkeyed call → Idempotency.intercept R sha256 i call next s ≡ next call s
    unfolding Idempotency.intercept
    unkeyed_passes u = ground arith
