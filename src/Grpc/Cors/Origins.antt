-- ===== src/Grpc/Cors/Origins.antt =====
-- Which origins are told that they may read an answer.
use runtime_rs.Base.{
  ◌≡◌, ◌⊎◌, refl, ◌&&◌, ◌||◌, if◌then◌else◌, Bool, true, false, List, [], ◌∷◌, none, some, Str,
  codes, any, str_eq, str_eq_refl, arith, Bool-cases, Option-cases, inl, inr,
}
use runtime_rs.Grpc.Status.{Result, ok, err}
use runtime_rs.Grpc.Cors
use runtime_rs.Grpc.Cors.{
  varied, Library, CorsPolicy, Compiled, Request, Response, Headers, star, get, insert, non_empty,
  append, origin_header, allow_origin_header, credentials_header, exposed_header, vary_header,
  method_header, methods_header, headers_header, max_age_header, normalize_origin,
}
use runtime_rs.Grpc.Cors.Names.{get-append, get-decorate, get-permit, get-varied}

module _ (library : Library) where
  -- A response tells the origin what it may, if it is allowed, and nothing otherwise.
  abbrev Tells : Compiled → Str → Headers → Type 0
  Tells compiled origin headers =
      (get allow_origin_header headers ≡ none)
      ⊎ (get allow_origin_header headers ≡ some (Cors.allow_origin library compiled origin))
        × (Cors.allowed library compiled origin ≡ true)

  get-preflight :
      (compiled : Compiled) (request : Headers) (origin : Str)
      → Tells compiled origin (Cors.preflight library compiled request origin).headers
  unfolding Cors.preflight
  get-preflight compiled request origin =
      ground (arith, get-permit library compiled request origin, get-varied)

  get-answer :
      (compiled : Compiled) (origin : Str) (headers : Headers)
      → get allow_origin_header headers ≡ none
      → Tells compiled origin (
          Cors.decorate_allowed library compiled
            (some origin)
            (append vary_header (codes "Origin") headers))
  unfolding Cors.decorate_allowed str_eq
  get-answer compiled origin headers h =
      let varied_headers = append vary_header (codes "Origin") headers in
      ground (
        arith,
        h,
        get-decorate library compiled origin varied_headers,
        get-append vary_header allow_origin_header (codes "Origin") headers refl,
      )

  -- The policy names the origin, or all.
  abbrev pub lists : CorsPolicy → Str → Bool
  lists policy origin =
      any
        (λ o. str_eq o star || elim (library.to_str origin) [
          | none ↦ false
          | some text ↦ str_eq (normalize_origin library o) (normalize_origin library text)
        ])
        policy.allowed_origins

  listed :
      (origins : List Str) (origin : Str)
      → any (λ o. str_eq o star) origins || elim (library.to_str origin) [
        | none ↦ false
        | some text ↦
            any
              (λ o. str_eq o (normalize_origin library text))
              (Cors.listed_origins library origins)
      ]
        ≡ any
            (λ o. str_eq o star || elim (library.to_str origin) [
              | none ↦ false
              | some text ↦ str_eq (normalize_origin library o) (normalize_origin library text)
            ])
            origins
  unfolding Cors.listed_origins
  listed [] origin = ground arith
  listed (o ∷ origins) origin = ground (arith, listed origins origin)

  compiled_fields :
      (policy : CorsPolicy) (compiled : Compiled)
      → Cors.cors library policy ≡ ok compiled
      → (compiled.any_origin ≡ any (λ o. str_eq o star) policy.allowed_origins)
        × (compiled.origins ≡ Cors.listed_origins library policy.allowed_origins)
        × (compiled.credentials ≡ policy.allow_credentials)
        × (Cors.validate_origins library policy.allow_credentials policy.allowed_origins ≡ ok tt)
  unfolding Cors.cors Cors.validate Cors.compile
  compiled_fields policy compiled h = ground (arith, h)

  no_star :
      (origins : List Str)
      → Cors.validate_origins library true origins ≡ ok tt
      → any (λ o. str_eq o star) origins ≡ false
  unfolding Cors.validate_origins
  no_star [] h = refl
  no_star (o ∷ origins) h = ground (arith, h, no_star origins)

  -- What an answer to a request tells of the origin that it comes from.
  abbrev pub Discloses : CorsPolicy → Request → Headers → Type 0
  Discloses policy request headers =
      (get allow_origin_header headers ≡ none)
      ⊎ ((origin : Str) × (non_empty origin_header request.headers ≡ some origin)
          × (lists policy origin ≡ true)
          × ((get allow_origin_header headers ≡ some origin)
              ⊎ (get allow_origin_header headers ≡ some star) × (policy.allow_credentials ≡ false)))

  disclosed :
      (policy : CorsPolicy) (compiled : Compiled) (request : Request) (origin : Str)
      (headers : Headers)
      → Cors.cors library policy ≡ ok compiled
      → non_empty origin_header request.headers ≡ some origin
      → Tells compiled origin headers
      → Discloses policy request headers
  unfolding Cors.allowed Cors.allow_origin
  disclosed policy compiled request origin headers made from (inl nothing) = inl nothing
  disclosed policy compiled request origin headers made from (inr (told, allowed)) =
      let fields = compiled_fields policy compiled made in
      inr (
        origin,
        from,
        ground (arith, fields, allowed, listed policy.allowed_origins origin),
        ground (arith, fields, told),
      )

  answered_unnamed :
      {E : Type 0} (compiled : Compiled) (served : Result E Response) (response : Response)
      → ((r : Response) → served ≡ ok r → get allow_origin_header r.headers ≡ none)
      → Cors.answered library compiled none served ≡ ok response
      → get allow_origin_header response.headers ≡ none
  unfolding Cors.answered Cors.decorate_allowed str_eq
  answered_unnamed compiled (err e) response silent h = absurd (ground (arith, h))
  answered_unnamed compiled (ok r) response silent h = ground (
    arith,
    h,
    silent r refl,
    get-append vary_header allow_origin_header (codes "Origin") r.headers refl,
  )

  answered_named :
      {E : Type 0} (compiled : Compiled) (origin : Str) (served : Result E Response)
      (response : Response)
      → ((r : Response) → served ≡ ok r → get allow_origin_header r.headers ≡ none)
      → Cors.answered library compiled (some origin) served ≡ ok response
      → Tells compiled origin response.headers
  unfolding Cors.answered
  answered_named compiled origin (err e) response silent h = absurd (ground (arith, h))
  answered_named compiled origin (ok r) response silent h =
      ground (arith, h, get-answer compiled origin r.headers (silent r refl))

  -- Let a policy pass, and the service behind it name no allowed origin itself. Then no answer names an
  -- allowed origin but the request's own, if the policy lists it, or the star, if it lists the request's
  -- origin or all and allows no credentials.
  pub call-Discloses :
      {S E : Type 0} (policy : CorsPolicy) (compiled : Compiled)
      (inner : Request → S → Result E Response × S) (request : Request) (s : S)
      (response : Response)
      → Cors.cors library policy ≡ ok compiled
      → ((served : Response)
          → (inner request s).0 ≡ ok served
          → get allow_origin_header served.headers ≡ none)
      → (Cors.call library compiled inner request s).0 ≡ ok response
      → Discloses policy request response.headers
  unfolding Cors.call
  call-Discloses policy compiled inner request s response made silent h =
      elim (Option-cases (non_empty origin_header request.headers)) [
        | inl unnamed ↦ inl (
            answered_unnamed compiled (inner request s).0 response silent
              (ground (arith, h, unnamed)))
        | inr (origin, from) ↦
            disclosed policy compiled request origin response.headers made from
              (elim (Bool-cases (Cors.is_preflight library request)) [
                | inl early ↦
                    ground (arith, h, from, early, get-preflight compiled request.headers origin)
                | inr late ↦
                    answered_named compiled origin (inner request s).0 response silent
                      (ground (arith, h, from, late))
              ])
      ]

  -- A policy that passes and allows credentials does not allow all origins.
  pub credentials_named :
      (policy : CorsPolicy) (compiled : Compiled)
      → Cors.cors library policy ≡ ok compiled
      → policy.allow_credentials ≡ true
      → compiled.any_origin ≡ false
  credentials_named policy compiled made told =
      ground (arith, told, compiled_fields policy compiled made, no_star policy.allowed_origins)

  -- The policy's methods, or else the usual ones.
  abbrev pub methods_of : CorsPolicy → List Str
  methods_of policy = elim policy.allowed_methods [
    | [] ↦ Cors.default_methods
    | m ∷ methods ↦ m ∷ methods
  ]

  -- A method that is asked for, in upper case; one that is no text counts as empty.
  abbrev pub requested : Str → Str
  requested asked = elim (library.to_str asked) [
    | none ↦ library.to_uppercase []
    | some text ↦ library.to_uppercase text
  ]

  -- One of the policy's methods is, in upper case and without its blanks, the requested one.
  abbrev pub allows_method : CorsPolicy → Str → Bool
  allows_method policy asked =
      any (λ m. str_eq (library.to_uppercase (library.trim m)) (requested asked))
        (methods_of policy)

  any-upper :
      (text : Str) (methods : List Str)
      → any (λ m. str_eq m text) (Cors.upper library methods)
        ≡ any (λ m. str_eq (library.to_uppercase (library.trim m)) text) methods
  unfolding Cors.upper
  any-upper text [] = refl
  any-upper text (m ∷ methods) = ground (arith, any-upper text methods)

  compiled_methods :
      (policy : CorsPolicy) (compiled : Compiled)
      → Cors.cors library policy ≡ ok compiled
      → compiled.allow_methods ≡ Cors.upper library (methods_of policy)
  unfolding Cors.cors Cors.compile Cors.or_else
  compiled_methods policy compiled h = ground (arith, h)

  -- Let a policy pass. A request that names its origin, has the method OPTIONS and names the method
  -- it asks for does not reach the service behind. It is answered with 204 if the policy lists its
  -- origin and, letter cases aside, the method that it asks for; and else with 403 and no allowed
  -- origin.
  pub preflight_exact :
      {S E : Type 0} (policy : CorsPolicy) (compiled : Compiled)
      (inner : Request → S → Result E Response × S) (request : Request) (s : S) (origin asked : Str)
      → Cors.cors library policy ≡ ok compiled
      → non_empty origin_header request.headers ≡ some origin
      → request.method ≡ codes "OPTIONS"
      → non_empty method_header request.headers ≡ some asked
      → (response : Response) × (Cors.call library compiled inner request s ≡ (ok response, s))
        × (response.status
            ≡ (if lists policy origin && allows_method policy asked then 204 else 403))
        × (response.status ≡ 403 → get allow_origin_header response.headers ≡ none)
  unfolding Cors.call Cors.preflight Cors.is_preflight non_empty Cors.requested_method Cors.allowed
  preflight_exact policy compiled inner request s origin asked made from options asks = (
    Cors.preflight library compiled request.headers origin,
    ground (arith, from, options, asks, str_eq_refl (codes "OPTIONS")),
    ground (
      arith,
      asks,
      any-upper (requested asked) (methods_of policy),
      compiled_methods policy compiled made,
      compiled_fields policy compiled made,
      listed policy.allowed_origins origin,
    ),
    λ refused. ground (arith, refused, get-varied),
  )
