-- ===== src/Grpc/Cors/Names.antt =====
-- Which header names the allowed origin, in what the layer writes.
use runtime_rs.Base.{
  ◌≡◌, refl, ◌∙◌, not, if◌then◌else◌, false, [], ◌∷◌, Option, none, some, Str, codes, str_eq,
  str_eq_iff, arith, Bool-cases, inl, inr,
}
use runtime_rs.Grpc.Cors
use runtime_rs.Grpc.Cors.{
  varied, Library, CorsPolicy, Compiled, Request, Response, Headers, star, get, insert, non_empty,
  append, origin_header, allow_origin_header, credentials_header, exposed_header, vary_header,
  methods_header, headers_header, max_age_header, normalize_origin,
}

get-remove :
    (name n : Str) (headers : Headers)
    → get n (Cors.remove name headers) ≡ (if str_eq name n then none else get n headers)
unfolding get Cors.remove
get-remove name n [] = ground arith
get-remove name n ((m, v) ∷ headers) =
    ground (arith, get-remove name n headers, str_eq_iff m name, str_eq_iff m n, str_eq_iff name n)

get-insert :
    (name n v : Str) (headers : Headers)
    → get n (insert name v headers) ≡ (if str_eq name n then some v else get n headers)
unfolding get insert
get-insert name n v headers = ground (arith, get-remove name n headers)

pub get-append :
    (name n v : Str) (headers : Headers)
    → str_eq name n ≡ false
    → get n (append name v headers) ≡ get n headers
unfolding get
get-append name n v [] h = ground (arith, h)
get-append name n v ((m, w) ∷ headers) h = ground (arith, get-append name n v headers h)

-- A header of another name is put in.
pub get-other :
    (name n v : Str) (headers : Headers)
    → str_eq name n ≡ false
    → get n (insert name v headers) ≡ get n headers
get-other name n v headers h = ground (arith, h, get-insert name n v headers)

pub get-own : (n v : Str) (headers : Headers) → get n (insert n v headers) ≡ some v
get-own n v headers = ground (arith, get-insert n n v headers, str_eq_iff n n)

module _ (library : Library) where
  get-option :
      (name n : Str) (v : Option Str) (headers : Headers)
      → str_eq name n ≡ false
      → get n (Cors.insert_option library name v headers) ≡ get n headers
  unfolding Cors.insert_option
  get-option name n none headers h = refl
  get-option name n (some v) headers h = get-other name n v headers h

  get-credentials :
      (compiled : Compiled) (headers : Headers)
      → get allow_origin_header (Cors.insert_credentials library compiled headers)
        ≡ get allow_origin_header headers
  unfolding Cors.insert_credentials str_eq
  get-credentials compiled headers = elim (Bool-cases compiled.credentials) [
    | inl told ↦
        rw told (get-other credentials_header allow_origin_header (codes "true") headers refl)
    | inr untold ↦ rw untold refl
  ]

  pub get-decorate :
      (compiled : Compiled) (origin : Str) (headers : Headers)
      → get allow_origin_header (Cors.decorate library compiled origin headers)
        ≡ some (Cors.allow_origin library compiled origin)
  unfolding Cors.decorate str_eq
  get-decorate compiled origin headers =
      let allowing =
        insert allow_origin_header (Cors.allow_origin library compiled origin) headers in
      get-option exposed_header allow_origin_header compiled.exposed
        (Cors.insert_credentials library compiled allowing) refl
      ∙ (get-credentials compiled allowing
          ∙ get-own allow_origin_header (Cors.allow_origin library compiled origin) headers)

  pub get-permit :
      (compiled : Compiled) (request : Headers) (origin : Str)
      → get allow_origin_header (Cors.permit library compiled request origin)
        ≡ some (Cors.allow_origin library compiled origin)
  unfolding Cors.permit str_eq
  get-permit compiled request origin =
      let allowing =
        insert allow_origin_header (Cors.allow_origin library compiled origin) varied in
      let methods = insert methods_header compiled.methods allowing in
      let requested =
        if not compiled.any_header
        then some compiled.headers
        else non_empty Cors.requested_header request in
      let told = Cors.insert_option library headers_header requested methods in
      get-option max_age_header allow_origin_header compiled.max_age
        (Cors.insert_credentials library compiled told) refl
      ∙ (get-credentials compiled told
          ∙ (get-option headers_header allow_origin_header requested methods refl
              ∙ (get-other methods_header allow_origin_header compiled.methods allowing refl
                  ∙ get-own allow_origin_header (Cors.allow_origin library compiled origin)
                      varied)))

  pub get-varied : get allow_origin_header varied ≡ none
  unfolding get str_eq
  get-varied = refl
