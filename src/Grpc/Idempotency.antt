-- ===== src/Grpc/Idempotency.antt =====
-- grpc/src/idempotency/mod.rs: the interceptor that makes `request_id` mean what AIP-155 promises.
pub mod Contract
pub mod Memory
pub mod Name
pub mod Claims
pub mod Replays
pub mod Once
use runtime_rs.Base.{
  ℕ, ◌-◌, ◌*◌, ◌==◌, ltb, leb, ◌&&◌, ◌||◌, not, if◌then◌else◌, Bool, true, false, Option, none,
  some, [], ◌∷◌, ◌++◌, Str, Bytes, codes,
}
use runtime_rs.Grpc.Status
use runtime_rs.Grpc.Status.{Status, aborted, internal, Result, ok, err}
use runtime_rs.Grpc.Call
use runtime_rs.Grpc.Call.{Reflection, Exec, MethodDescriptor, UnaryCall, UnaryReply, Handler}
use runtime_rs.Grpc.Idempotency.Contract.{
  Key, KeyState, in_flight, done, StoreError, not_found, backend, error_text, Store,
}
use runtime_rs.Grpc.Idempotency.Name.{key_name}

-- Ten minutes, in nanoseconds.
abbrev pub default_stale_after : ℕ
default_stale_after = 10 * 60 * 1_000_000_000

abbrev pub request_id_field : Str
request_id_field = codes "request_id"

abbrev pub validate_only_field : Str
validate_only_field = codes "validate_only"

abbrev pub reason_in_flight : Str
reason_in_flight = codes "REQUEST_IN_FLIGHT"

abbrev pub reason_abandoned : Str
reason_abandoned = codes "REQUEST_ABANDONED"

-- `now` reads the clock in the state that the call has reached.
pub record Options (S : Type 0) : Type 0 where
  pub domain : Str
  pub stale_after : ℕ
  pub create_error : Option (StoreError → Status)
  pub now : S → ℕ

pub record IdempotencyInterceptor (S : Type 0) : Type 0 where
  pub store : Store S
  pub domain : Str
  pub stale_after : ℕ
  pub create_error : StoreError → Status
  pub now : S → ℕ

abbrev pub is_empty : Str → Bool
is_empty [] = true
is_empty (_ ∷ _) = false

unfoldable pub claim_failed : StoreError → Status
claim_failed error = Status.new internal (codes "idempotency: claim key: " ++ error_text error)

unfoldable pub new : {S : Type 0} → Store S → Options S → IdempotencyInterceptor S
unfolding claim_failed
new store opts = record {
  store = store;
  domain = opts.domain;
  stale_after = if opts.stale_after == 0 then default_stale_after else opts.stale_after;
  create_error = elim opts.create_error [ some f ↦ f | none ↦ claim_failed ];
  now = opts.now;
}

unfoldable pub abandoned_message : Str
abandoned_message =
    codes
      "An earlier request with this request_id stopped before it finished, and its claim has now been cleared. Retry the same request with the same request_id: it will run once"

unfoldable pub in_flight_message : Str
in_flight_message =
    codes
      "A request with this request_id is still running. Wait a moment and retry with the same request_id: once the first finishes, the retry returns its result without running it again"

unfoldable pub refusal : Str → Str → Str → Status
refusal domain reason message = record {
  code = aborted;
  message = message ++ codes ".";
  info = some (reason, domain);
}

module _ (sha256 : Bytes → Bytes) where
  unfoldable pub new_key : Str → Str → Key
  new_key full_method request_id = record {
    name = key_name sha256 full_method request_id;
    method = full_method;
    request_id = request_id;
    state = in_flight;
    response = [];
    response_type = [];
    create_time = none;
  }

module _ (R : Reflection) where
  open R use {
    MessageDescriptor, FieldDescriptor, DynamicMessage, get_field_by_name, is_list, is_map,
    is_string, is_bool, full_name, descriptor_of, as_str, as_bool, encode,
  }

  -- A singular field of the kind.
  unfoldable pub field : (FieldDescriptor → Bool) → MessageDescriptor → Str → Option FieldDescriptor
  field kind descriptor name = elim (get_field_by_name descriptor name) [
    | none ↦ none
    | some fd ↦ if not (is_list fd) && (not (is_map fd) && kind fd) then some fd else none
  ]

  unfoldable pub string_field : DynamicMessage → Str → Str
  unfolding field
  string_field message name = elim (field is_string (descriptor_of message) name) [
    | none ↦ []
    | some fd ↦ elim (as_str message fd) [ none ↦ [] | some text ↦ text ]
  ]

  unfoldable pub bool_field : DynamicMessage → Str → Bool
  unfolding field
  bool_field message name = elim (field is_bool (descriptor_of message) name) [
    | none ↦ false
    | some fd ↦ elim (as_bool message fd) [ none ↦ false | some value ↦ value ]
  ]

  module _ {S : Type 0} where
    unfoldable pub is_stale : IdempotencyInterceptor S → Option ℕ → S → Bool
    is_stale i created s = elim created [
      | none ↦ false
      | some t ↦ leb t (i.now s) && ltb i.stale_after (i.now s - t)
    ]

    -- An IN_FLIGHT key that is in the way.
    unfoldable pub blocked : IdempotencyInterceptor S → Str → Key → Exec S (UnaryReply R)
    unfolding is_stale refusal abandoned_message in_flight_message
    blocked i name existing s =
        if is_stale i existing.create_time s
        then elim (i.store.delete name s).0 [
          | err error ↦ (
            err (
                Status.new internal
                  (codes "idempotency: reclaim abandoned key: " ++ error_text error)),
            (i.store.delete name s).1,
          )
          | ok _ ↦
              (err (refusal i.domain reason_abandoned abandoned_message), (i.store.delete name s).1)
        ]
        else (err (refusal i.domain reason_in_flight in_flight_message), s)

    unfoldable pub recorded :
        IdempotencyInterceptor S → Str → Key → Option MessageDescriptor → Exec S (UnaryReply R)
    unfolding blocked
    recorded i name existing output s = elim existing.state [
      | done ↦ (ok (Call.new_reply R existing.response output), s)
      | in_flight ↦ blocked i name existing s
    ]

    unfoldable pub replay :
        IdempotencyInterceptor S
        → Str
        → StoreError
        → Option MessageDescriptor
        → Exec S (UnaryReply R)
    unfolding recorded
    replay i name create_err output s = elim (i.store.get name s).0 [
      | ok existing ↦ recorded i name existing output (i.store.get name s).1
      | err error ↦ elim error [
        | not_found ↦ (err (i.create_error create_err), (i.store.get name s).1)
        | backend text ↦ (
          err (Status.new internal (codes "idempotency: read key: " ++ text)),
          (i.store.get name s).1,
        )
      ]
    ]

    -- A failure to record is logged and swallowed.
    unfoldable pub settle : IdempotencyInterceptor S → Key → UnaryReply R → S → S
    settle i key reply s = elim (Call.reply_message R reply) [
      | err status ↦ s
      | ok response ↦
          (i.store.settle
            (record key {
              state = done;
              response = encode response;
              response_type = full_name (descriptor_of response);
            })
            s).1
    ]

    -- After the claim: the rest of the chain runs, and its result is recorded or the key released.
    unfoldable pub run_claimed :
        IdempotencyInterceptor S → Key → Exec S (UnaryReply R) → Exec S (UnaryReply R)
    run_claimed i key run s = elim (run s).0 [
      | ok reply ↦ (ok reply, settle i key reply (run s).1)
      | err status ↦ (err status, (i.store.delete key.name (run s).1).1)
    ]

    unfoldable pub claim_and_run :
        IdempotencyInterceptor S
        → Key
        → Option MessageDescriptor
        → Exec S (UnaryReply R)
        → Exec S (UnaryReply R)
    claim_and_run i key output run s = elim (i.store.create key s).0 [
      | err error ↦ replay i key.name error output (i.store.create key s).1
      | ok _ ↦ run_claimed i key run (i.store.create key s).1
    ]

    module _ (sha256 : Bytes → Bytes) where
      unfoldable pub intercept :
          IdempotencyInterceptor S → UnaryCall R → Handler R S → Exec S (UnaryReply R)
      intercept i call next = elim call.descriptor [
        | none ↦ next call
        | some method ↦ elim (field is_string method.input request_id_field) [
          | none ↦ next call
          | some _ ↦ elim (Call.message R call) [
            | err status ↦ next call
            | ok request ↦
                if is_empty (string_field request request_id_field)
                  || bool_field request validate_only_field
                then next call
                else claim_and_run i
                    (new_key sha256 call.path (string_field request request_id_field))
                    (some method.output) (next call)
          ]
        ]
      ]
