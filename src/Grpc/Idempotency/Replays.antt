-- ===== src/Grpc/Idempotency/Replays.antt =====
-- The interceptor over the memory store, with a service that does not touch the store.
use runtime_rs.Base.{
  ℕ, ◌≡◌, if◌then◌else◌, true, false, Option, none, some, Str, arith, str_eq, str_eq_iff,
  str_eq_refl,
}
use runtime_rs.Base.Assoc
use runtime_rs.Base.Assoc.{get-insert, get-remove}
use runtime_rs.Grpc.Status.{Status, Result, ok, err}
use runtime_rs.Grpc.Call
use runtime_rs.Grpc.Call.{Reflection, Exec, MethodDescriptor, UnaryCall, UnaryReply, Handler}
use runtime_rs.Grpc.Idempotency.Contract.{Key, in_flight, done, StoreError, Store}
use runtime_rs.Grpc.Idempotency.Memory
use runtime_rs.Grpc.Idempotency.Memory.{MemoryStore}
use runtime_rs.Grpc.Idempotency
use runtime_rs.Grpc.Idempotency.{IdempotencyInterceptor, is_empty, new_key, claim_and_run}

-- The store beside the state `A` of the service.
abbrev pub beside : {A : Type 0} → Store (MemoryStore × A)
beside = record {
  create = λ key s. ((Memory.create key s.0).0, ((Memory.create key s.0).1, s.1));
  get = λ name s. ((Memory.get name s.0).0, ((Memory.get name s.0).1, s.1));
  settle = λ key s. ((Memory.settle key s.0).0, ((Memory.settle key s.0).1, s.1));
  delete = λ name s. ((Memory.delete name s.0).0, ((Memory.delete name s.0).1, s.1));
}

module _ (R : Reflection) where
  open R use {MessageDescriptor, DynamicMessage, encode}

  -- A service that works on its own state alone.
  abbrev pub serving :
      {A : Type 0}
      → (UnaryCall R → A → Result Status (UnaryReply R) × A)
      → Handler R (MemoryStore × A)
  serving h call s = ((h call s.1).0, (s.0, (h call s.1).1))

  module _ {A : Type 0} (domain : Str) (stale_after : ℕ) (create_error : StoreError → Status)
      (now : MemoryStore × A → ℕ) where
    abbrev pub over_memory : IdempotencyInterceptor (MemoryStore × A)
    over_memory = record {
      store = beside;
      domain = domain;
      stale_after = stale_after;
      create_error = create_error;
      now = now;
    }

    module _ (h : UnaryCall R → A → Result Status (UnaryReply R) × A) (call : UnaryCall R)
        (key : Key) (output : Option MessageDescriptor) (m : MemoryStore) (a : A) where
      abbrev pub after : Result Status (UnaryReply R) × (MemoryStore × A)
      after = claim_and_run R over_memory key output (serving h call) (m, a)

      -- Of a key that is taken the service never hears.
      pub taken :
          (existing : Key)
          → Assoc.get key.name m.keys ≡ some existing
          → (after.1.1 ≡ a)
            × (existing.state ≡ done
                → (after.0 ≡ ok (Call.new_reply R existing.response output))
                  × (after.1.0.keys ≡ m.keys))
            × (existing.state ≡ in_flight
                → Idempotency.is_stale R over_memory existing.create_time (m, a) ≡ false
                → (after.0
                    ≡ err (
                        Idempotency.refusal domain Idempotency.reason_in_flight
                          Idempotency.in_flight_message))
                  × (after.1.0.keys ≡ m.keys))
            × (existing.state ≡ in_flight
                → Idempotency.is_stale R over_memory existing.create_time (m, a) ≡ true
                → (after.0
                    ≡ err (
                        Idempotency.refusal domain Idempotency.reason_abandoned
                          Idempotency.abandoned_message))
                  × (after.1.0.keys ≡ Assoc.remove key.name m.keys))
      unfolding claim_and_run Idempotency.replay Memory.create Memory.get Memory.delete
      taken existing there = ground arith

      pub fresh_ok :
          (reply : UnaryReply R) (response : DynamicMessage) (j : Str)
          → Assoc.get key.name m.keys ≡ none
          → (h call a).0 ≡ ok reply
          → Call.reply_message R reply ≡ ok response
          → (after.0 ≡ ok reply)
            × (after.1.1 ≡ (h call a).1)
            × (Assoc.get j after.1.0.keys ≡ (
                if str_eq key.name j
                then some (record key {
                  state = done;
                  response = encode response;
                  response_type = R.full_name (R.descriptor_of response);
                  create_time = some m.now;
                })
                else Assoc.get j m.keys))
      unfolding claim_and_run Idempotency.run_claimed Idempotency.settle Memory.create Memory.settle
      fresh_ok reply response j free works readable = ground (
        arith,
        free,
        works,
        readable,
        get-insert key.name key.name (record key { create_time = some m.now }) m.keys,
        str_eq_refl key.name,
        get-insert key.name j (record key { create_time = some m.now }) m.keys,
        get-insert key.name j
            (record key {
              state = done;
              response = encode response;
              response_type = R.full_name (R.descriptor_of response);
              create_time = some m.now;
            })
            (Assoc.insert key.name (record key { create_time = some m.now }) m.keys),
      )

      pub fresh_err :
          (status : Status) (j : Str)
          → Assoc.get key.name m.keys ≡ none
          → (h call a).0 ≡ err status
          → (after.0 ≡ err status)
            × (after.1.1 ≡ (h call a).1)
            × (Assoc.get j after.1.0.keys ≡ Assoc.get j m.keys)
      unfolding claim_and_run Idempotency.run_claimed Memory.create Memory.delete
      fresh_err status j free fails = ground (
        arith,
        free,
        fails,
        str_eq_iff key.name j,
        get-insert key.name j (record key { create_time = some m.now }) m.keys,
        get-remove key.name j
            (Assoc.insert key.name (record key { create_time = some m.now }) m.keys),
      )
