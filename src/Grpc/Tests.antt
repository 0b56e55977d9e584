-- ===== src/Grpc/Tests.antt =====
-- The interceptors at concrete inputs.
use runtime_rs.Base.{
  ℕ, ◌+◌, ◌≡◌, refl, true, false, none, some, Str, Bytes, [], ◌∷◌, codes, str_eq, if◌then◌else◌,
}
use runtime_rs.Base.Assoc
use runtime_rs.Grpc.Status
use runtime_rs.Grpc.Status.{Status, internal, Result, ok, err}
use runtime_rs.Grpc.Call
use runtime_rs.Grpc.Call.{Reflection, UnaryCall, UnaryReply}
use runtime_rs.Grpc.Idempotency.Contract.{Key, in_flight, done, StoreError}
use runtime_rs.Grpc.Idempotency.Memory.{MemoryStore}
use runtime_rs.Grpc.Idempotency
use runtime_rs.Grpc.Idempotency.{new_key}
use runtime_rs.Grpc.Idempotency.Name.{key_name}
use runtime_rs.Grpc.Idempotency.Claims.{IsKeyed}
use runtime_rs.Grpc.Idempotency.Once.{serve, failure_releases, runs_once}

-- Messages that hold the request id alone.
abbrev reflection : Reflection
reflection = record {
  Metadata = Unit;
  no_metadata = tt;
  MessageDescriptor = Unit;
  FieldDescriptor = Unit;
  DynamicMessage = Str;
  get_field_by_name = λ _ name. if str_eq name (codes "request_id") then some tt else none;
  is_list = λ _. false;
  is_map = λ _. false;
  is_string = λ _. true;
  is_bool = λ _. false;
  full_name = λ _. codes "Order";
  descriptor_of = λ _. tt;
  as_str = λ message _. some message;
  as_bool = λ _ _. none;
  decode = λ _ payload. ok payload;
  encode = λ message. message;
}

abbrev sha256 : Bytes → Bytes
sha256 input = input

abbrev id : Str
id = codes "42"

abbrev bare : UnaryCall reflection
bare = record {
  path = codes "/Orders/Create";
  metadata = tt;
  payload = id;
  compressed = false;
  descriptor = none;
}

abbrev call : UnaryCall reflection
call = record bare { descriptor = some (record { input = tt; output = tt }) }

abbrev reply : UnaryReply reflection
reply = Call.new_reply reflection (codes "done") (some tt)

-- The service counts its runs, and fails the first.
abbrev service : UnaryCall reflection → ℕ → Result Status (UnaryReply reflection) × ℕ
service _ n = (ok reply, n + 1)

abbrev failing : UnaryCall reflection → ℕ → Result Status (UnaryReply reflection) × ℕ
failing _ n = (err (Status.new internal (codes "down")), n + 1)

abbrev nothing : MemoryStore
nothing = record { keys = []; now = 5 }

abbrev claim_failed : StoreError → Status
claim_failed _ = Status.new internal (codes "claim")

abbrev clock : MemoryStore × ℕ → ℕ
clock s = s.0.now

call-IsKeyed : IsKeyed reflection call id
unfolding Call.message Idempotency.field Idempotency.string_field Idempotency.bool_field str_eq
call-IsKeyed = record {
  method = record { input = tt; output = tt };
  described = refl;
  fd = tt;
  declared = refl;
  request = id;
  decoded = refl;
  named = refl;
  not_empty = refl;
  is_write = refl;
}

abbrev serve_it :
    UnaryCall reflection
    → MemoryStore × ℕ
    → Result Status (UnaryReply reflection) × (MemoryStore × ℕ)
serve_it = serve reflection sha256 (codes "shop") 60 claim_failed clock service

abbrev later : MemoryStore
later = record ((serve_it call (nothing, 0)).1.0) { now = 9 }

runs_once_example :
    ((serve_it call (nothing, 0)).0 ≡ ok reply)
    × ((serve_it call (nothing, 0)).1.1 ≡ 1)
    × ((serve_it call (later, 1)).0 ≡ ok (Call.new_reply reflection (codes "done") (some tt)))
    × ((serve_it call (later, 1)).1.1 ≡ 1)
    × ((serve_it call (later, 1)).1.0.keys ≡ later.keys)
unfolding Assoc.get Call.reply_message call-IsKeyed
runs_once_example =
    runs_once reflection sha256 (codes "shop") 60 claim_failed clock service call call id
      call-IsKeyed call-IsKeyed nothing 0 reply (codes "done") later 1 refl refl refl refl refl

abbrev recorded : Key
recorded = record (new_key sha256 (codes "/Orders/Create") id) {
  state = done;
  response = codes "done";
  create_time = some 5;
}

abbrev holding : Key → MemoryStore
holding key = record { keys = (key_name sha256 (codes "/Orders/Create") id, key) ∷ []; now = 9 }

abbrev flying : Key
flying = record recorded { state = in_flight }

failure_releases_example :
    ((serve reflection sha256 (codes "shop") 60 claim_failed clock failing call (nothing, 0)).0
      ≡ err (Status.new internal (codes "down")))
    × ((serve reflection sha256 (codes "shop") 60 claim_failed clock failing call (nothing, 0)).1.1
        ≡ 1)
    × (Assoc.get id
          (serve reflection sha256
            (codes "shop")
            60
            claim_failed
            clock
            failing
            call
            (nothing, 0)).1.0.keys
        ≡ Assoc.get id nothing.keys)
unfolding Assoc.get
failure_releases_example =
    failure_releases reflection sha256 (codes "shop") 60 claim_failed clock failing call id
      call-IsKeyed nothing 0 (Status.new internal (codes "down")) id refl refl

abbrev long_after : MemoryStore
long_after = record (holding flying) { now = 70 }
