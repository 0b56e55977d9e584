-- ===== src/Grpc/Cors.antt =====
-- grpc/src/cors.rs: cross-origin requests. The http crate's header values and URIs, Unicode's letter cases
-- and the printing of a text are parameters; log lines are left out.
pub mod Policy
pub mod HeaderMap
pub mod Names
pub mod Origins
mod Tests
unfoldable pub use Policy.*
unfoldable pub use HeaderMap.*
use runtime_rs.Base.{
  ℕ, ◌/◌, ◌==◌, ◌&&◌, ◌||◌, not, if◌then◌else◌, Bool, true, false, List, [], ◌∷◌, ◌++◌, Option,
  none, some, Str, codes, any, str_eq,
}
use runtime_rs.Grpc.Status.{Result, ok, err}

pub record Request : Type 0 where
  pub method : Str
  pub headers : Headers
  pub body : List ℕ

pub record Response : Type 0 where
  pub status : ℕ
  pub headers : Headers
  pub body : List ℕ

pub record Compiled : Type 0 where
  pub any_origin : Bool
  pub origins : List Str
  pub methods : Str
  pub allow_methods : List Str
  pub headers : Str
  pub any_header : Bool
  pub exposed : Option Str
  pub credentials : Bool
  pub max_age : Option Str

abbrev pub varied : Headers
varied =
    (vary_header, codes "Origin")
    ∷ (vary_header, codes "Access-Control-Request-Method")
    ∷ (vary_header, codes "Access-Control-Request-Headers")
    ∷ []

module _ (library : Library) where
  or_else : List Str → List Str → List Str
  or_else [] otherwise = otherwise
  or_else (x ∷ xs) otherwise = x ∷ xs

  unfoldable pub listed_origins : List Str → List Str
  unfolding normalize_origin
  listed_origins [] = []
  listed_origins (o ∷ origins) =
      let rest = listed_origins origins in
      if str_eq o star then rest else normalize_origin library o ∷ rest

  upper : List Str → List Str
  upper [] = []
  upper (m ∷ methods) = library.to_uppercase (library.trim m) ∷ upper methods

  value : Str → Result Str Str
  value text =
      if library.is_header_value text then ok text else err (codes "a policy value is not a header")

  exposed_value : List Str → Result Str (Option Str)
  unfolding value join
  exposed_value [] = ok none
  exposed_value (x ∷ xs) = elim (value (join (x ∷ xs))) [ err e ↦ err e | ok v ↦ ok (some v) ]

  -- Durations are nanoseconds.
  unfoldable pub compile : CorsPolicy → Result Str Compiled
  unfolding or_else listed_origins upper value exposed_value join
  compile policy =
      let methods = upper (or_else policy.allowed_methods default_methods) in
      let headers = or_else policy.allowed_headers default_headers in
      elim (value (join methods)) [
        | err e ↦ err e
        | ok methods_value ↦ elim (value (join headers)) [
          | err e ↦ err e
          | ok headers_value ↦ elim (exposed_value policy.exposed_headers) [
            | err e ↦ err e
            | ok exposed ↦ ok (record {
              any_origin = any (λ o. str_eq o star) policy.allowed_origins;
              origins = listed_origins policy.allowed_origins;
              methods = methods_value;
              allow_methods = methods;
              headers = headers_value;
              any_header = any (λ h. str_eq h star) headers;
              exposed = exposed;
              credentials = policy.allow_credentials;
              max_age =
                  if policy.max_age == 0
                  then none
                  else some (library.print_number (policy.max_age / 1_000_000_000));
            })
          ]
        ]
      ]

  unfoldable pub cors : CorsPolicy → Result Str Compiled
  unfolding validate compile
  cors policy = elim (validate library policy) [
    | err message ↦ err message
    | ok done ↦ compile policy
  ]

  unfoldable pub allowed : Compiled → Str → Bool
  unfolding normalize_origin
  allowed compiled origin = compiled.any_origin || elim (library.to_str origin) [
    | none ↦ false
    | some text ↦ any (λ o. str_eq o (normalize_origin library text)) compiled.origins
  ]

  unfoldable pub allow_origin : Compiled → Str → Str
  allow_origin compiled origin =
      if compiled.any_origin && not compiled.credentials then star else origin

  insert_option : Str → Option Str → Headers → Headers
  unfolding insert
  insert_option name none headers = headers
  insert_option name (some v) headers = insert name v headers

  insert_credentials : Compiled → Headers → Headers
  unfolding insert
  insert_credentials compiled headers =
      if compiled.credentials then insert credentials_header (codes "true") headers else headers

  unfoldable pub decorate : Compiled → Str → Headers → Headers
  unfolding allow_origin insert_option insert_credentials
  decorate compiled origin headers = insert_option exposed_header compiled.exposed (
      insert_credentials compiled
        (insert allow_origin_header (allow_origin compiled origin) headers))

  pub requested_method : Headers → Str
  unfolding get
  requested_method headers = elim (get method_header headers) [
    | none ↦ library.to_uppercase []
    | some m ↦ elim (library.to_str m) [
      | none ↦ library.to_uppercase []
      | some text ↦ library.to_uppercase text
    ]
  ]

  -- What an allowed preflight is told.
  pub permit : Compiled → Headers → Str → Headers
  unfolding allow_origin insert insert_option insert_credentials non_empty
  permit compiled request origin =
      let requested =
        if not compiled.any_header
        then some compiled.headers
        else non_empty requested_header request in
      let allowing = insert allow_origin_header (allow_origin compiled origin) varied in
      insert_option max_age_header compiled.max_age (
        insert_credentials compiled (
          insert_option headers_header requested (insert methods_header compiled.methods allowing)))

  unfoldable pub preflight : Compiled → Headers → Str → Response
  unfolding allowed requested_method permit
  preflight compiled request origin =
      if not (allowed compiled origin)
        || not (any (λ m. str_eq m (requested_method request)) compiled.allow_methods)
      then record { status = 403; headers = varied; body = [] }
      else record { status = 204; headers = permit compiled request origin; body = [] }

  unfoldable pub is_preflight : Request → Bool
  unfolding non_empty
  is_preflight request =
      str_eq request.method (codes "OPTIONS")
      && not (is_absent (non_empty method_header request.headers))

  decorate_allowed : Compiled → Option Str → Headers → Headers
  unfolding allowed decorate
  decorate_allowed compiled none headers = headers
  decorate_allowed compiled (some origin) headers =
      if allowed compiled origin then decorate compiled origin headers else headers

  answered : {E : Type 0} → Compiled → Option Str → Result E Response → Result E Response
  unfolding decorate_allowed
  answered compiled origin (err e) = err e
  answered compiled origin (ok response) = ok (record response {
    headers =
        decorate_allowed compiled origin (append vary_header (codes "Origin") response.headers);
  })

  unfoldable pub call :
      {S E : Type 0}
      → Compiled
      → (Request → S → Result E Response × S)
      → Request
      → S
      → Result E Response × S
  unfolding non_empty is_preflight preflight answered is_absent
  call compiled inner request s =
      let origin = non_empty origin_header request.headers in
      let served = inner request s in
      elim origin [
        | none ↦ (answered compiled none served.0, served.1)
        | some from ↦
            if is_preflight request
            then (ok (preflight compiled request.headers from), s)
            else (answered compiled (some from) served.0, served.1)
      ]
