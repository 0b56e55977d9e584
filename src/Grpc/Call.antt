-- ===== src/Grpc/Call.antt =====
-- grpc/src/intercept.rs: a unary call and its reply as an interceptor sees them, and the chain.
-- Protobuf reflection (prost-reflect) and HTTP metadata are parameters; the extensions of a call,
-- which nothing modelled here reads, are left out.
use runtime_rs.Base.{
  ◌++◌, if◌then◌else◌, Bool, false, Option, none, some, List, [], ◌∷◌, Str, Bytes, codes,
}
use runtime_rs.Grpc.Status
use runtime_rs.Grpc.Status.{Status, internal, invalid_argument, Result, ok, err}

-- prost-reflect's descriptors and messages. `decode` gives the text of its error.
pub record Reflection : Type 1 where
  pub Metadata : Type 0
  pub no_metadata : Metadata
  pub MessageDescriptor : Type 0
  pub FieldDescriptor : Type 0
  pub DynamicMessage : Type 0
  pub get_field_by_name : MessageDescriptor → Str → Option FieldDescriptor
  pub is_list : FieldDescriptor → Bool
  pub is_map : FieldDescriptor → Bool
  pub is_string : FieldDescriptor → Bool
  pub is_bool : FieldDescriptor → Bool
  pub full_name : MessageDescriptor → Str
  pub descriptor_of : DynamicMessage → MessageDescriptor
  pub as_str : DynamicMessage → FieldDescriptor → Option Str
  pub as_bool : DynamicMessage → FieldDescriptor → Option Bool
  pub decode : MessageDescriptor → Bytes → Result Str DynamicMessage
  pub encode : DynamicMessage → Bytes

-- What a call may do to the state it runs in.
abbrev pub Exec : Type 0 → Type 0 → Type 0
Exec S A = S → Result Status A × S

module _ (R : Reflection) where
  open R use {Metadata, no_metadata, MessageDescriptor, DynamicMessage, decode}

  pub record MethodDescriptor : Type 0 where
    pub input : MessageDescriptor
    pub output : MessageDescriptor

  pub record UnaryCall : Type 0 where
    pub path : Str
    pub metadata : Metadata
    pub payload : Bytes
    pub compressed : Bool
    pub descriptor : Option MethodDescriptor

  pub record UnaryReply : Type 0 where
    pub metadata : Metadata
    pub trailers : Metadata
    pub payload : Bytes
    pub compressed : Bool
    pub descriptor : Option MessageDescriptor

  missing_descriptor : Str → Status
  missing_descriptor path = Status.new internal (
      codes "no descriptor is registered for "
      ++ (path ++ codes "; register its descriptor set with HybridServer::with_reflection"))

  decoded : Result Str DynamicMessage → Result Status DynamicMessage
  decoded (ok message) = ok message
  decoded (err text) =
      err (Status.new invalid_argument (codes "the message does not decode: " ++ text))

  decode_dynamic : MessageDescriptor → Bytes → Bool → Result Status DynamicMessage
  unfolding decoded
  decode_dynamic descriptor payload compressed =
      if compressed
      then err (Status.new internal (codes "a compressed message cannot be inspected"))
      else decoded (decode descriptor payload)

  unfoldable pub message : UnaryCall → Result Status DynamicMessage
  unfolding missing_descriptor decode_dynamic
  message call = elim call.descriptor [
    | none ↦ err (missing_descriptor call.path)
    | some method ↦ decode_dynamic method.input call.payload call.compressed
  ]

  abbrev pub new_reply : Bytes → Option MessageDescriptor → UnaryReply
  new_reply payload descriptor = record {
    metadata = no_metadata;
    trailers = no_metadata;
    payload = payload;
    compressed = false;
    descriptor = descriptor;
  }

  as_internal : Result Status DynamicMessage → Result Status DynamicMessage
  as_internal (ok message) = ok message
  as_internal (err status) = err (Status.new internal status.message)

  unfoldable pub reply_message : UnaryReply → Result Status DynamicMessage
  unfolding decode_dynamic as_internal
  reply_message reply = elim reply.descriptor [
    | none ↦ err (Status.new internal (codes "the method's response descriptor was not registered"))
    | some descriptor ↦ as_internal (decode_dynamic descriptor reply.payload reply.compressed)
  ]

  -- An interceptor is given the rest of the chain; the last one is the service.
  abbrev pub Handler : Type 0 → Type 0
  Handler S = UnaryCall → Exec S UnaryReply

  abbrev pub Interceptor : Type 0 → Type 0
  Interceptor S = UnaryCall → Handler S → Exec S UnaryReply

  -- `Next::run`
  unfoldable pub run : {S : Type 0} → List (Interceptor S) → Handler S → Handler S
  run [] terminal call = terminal call
  run (first ∷ rest) terminal call = first call (run rest terminal)
