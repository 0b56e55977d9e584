-- ===== src/Grpc/Cors/Policy.antt =====
-- grpc/src/cors.rs: a policy, what is checked of it, and the defaults.
use runtime_rs.Base.{
  ℕ, ◌==◌, ◌||◌, not, if◌then◌else◌, Bool, true, false, List, [], ◌∷◌, ◌++◌, Option, none, some,
  Str, codes, str_eq, contains_char,
}
use runtime_rs.Grpc.Cors.HeaderMap.{is_empty}
use runtime_rs.Grpc.Status.{Result, ok, err}

-- `http::Uri`, as far as it is looked at.
pub record Uri : Type 0 where
  pub scheme : Option Str
  pub host : Option Str
  pub path_and_query : Option Str

-- `HeaderValue::from_str` and `to_str`, `Uri`'s parser, `str::trim` and the letter cases, `{:?}`, and
-- the decimal digits of a number.
pub record Library : Type 0 where
  pub is_header_value : Str → Bool
  pub to_str : Str → Option Str
  pub parse_uri : Str → Option Uri
  pub trim : Str → Str
  pub to_lowercase : Str → Str
  pub to_uppercase : Str → Str
  pub debug_print : Str → Str
  pub print_number : ℕ → Str

pub record CorsPolicy : Type 0 where
  pub allowed_origins : List Str
  pub allowed_methods : List Str
  pub allowed_headers : List Str
  pub exposed_headers : List Str
  pub allow_credentials : Bool
  pub max_age : ℕ

abbrev pub default_methods : List Str
default_methods =
    codes "GET" ∷ codes "POST" ∷ codes "PATCH" ∷ codes "PUT" ∷ codes "DELETE" ∷ codes "OPTIONS" ∷ []

abbrev pub default_headers : List Str
default_headers =
    codes "Content-Type"
    ∷ codes "Authorization"
    ∷ codes "X-Goog-Api-Client"
    ∷ codes "X-Goog-Request-Params"
    ∷ codes "X-Goog-User-Project"
    ∷ codes "X-Api-Key"
    ∷ []

abbrev pub star : Str
star = codes "*"

unfoldable pub join : List Str → Str
join [] = []
join (x ∷ []) = x
join (x ∷ y ∷ ys) = x ++ (codes ", " ++ join (y ∷ ys))

-- `strip_suffix('/')`, or the text itself.
unfoldable pub strip_slash : Str → Str
strip_slash [] = []
strip_slash (c ∷ []) = if c == b'/' then [] else c ∷ []
strip_slash (c ∷ d ∷ s) = c ∷ strip_slash (d ∷ s)

unfoldable pub ends_with_slash : Str → Bool
ends_with_slash [] = false
ends_with_slash (c ∷ []) = c == b'/'
ends_with_slash (c ∷ d ∷ s) = ends_with_slash (d ∷ s)

has_host : Option Str → Bool
has_host none = false
has_host (some host) = not (is_empty host)

is_bare : Option Str → Bool
is_bare none = true
is_bare (some rest) = is_empty rest || str_eq rest (codes "/")

unfoldable pub is_absent : Option Str → Bool
is_absent none = true
is_absent (some _) = false

no_origins : List Str → Bool
no_origins [] = true
no_origins (_ ∷ _) = false

module _ (library : Library) where
  abbrev unwanted : Str → Str
  unwanted origin =
      codes "origin "
      ++ (library.debug_print origin
          ++ codes ": want scheme://host[:port], such as https://app.example.com")

  pub validate_origin : Str → Result Str Unit
  unfolding strip_slash ends_with_slash has_host is_bare is_absent
  validate_origin origin =
      let trimmed = strip_slash origin in
      if contains_char b'#' trimmed || contains_char b'@' trimmed
      then err (unwanted origin)
      else elim (library.parse_uri trimmed) [
        | none ↦ err (unwanted origin)
        | some uri ↦
            if is_absent uri.scheme
              || (not (has_host uri.host)
                  || (not (is_bare uri.path_and_query) || ends_with_slash trimmed))
            then err (unwanted origin)
            else ok tt
      ]

  unfoldable pub validate_origins : Bool → List Str → Result Str Unit
  unfolding validate_origin
  validate_origins credentials [] = ok tt
  validate_origins credentials (origin ∷ origins) =
      let rest = validate_origins credentials origins in
      if str_eq origin star
      then (if credentials
          then err (
              codes
                "the \"*\" origin cannot be combined with allowed credentials; list the origins instead")
          else rest)
      else elim (validate_origin origin) [ err message ↦ err message | ok done ↦ rest ]

  pub validate_lists : List (List Str) → Result Str Unit
  unfolding join
  validate_lists [] = ok tt
  validate_lists (list ∷ lists) =
      let rest = validate_lists lists in
      if not (library.is_header_value (join list))
      then err (library.debug_print (join list) ++ codes " is not a valid header value")
      else rest

  unfoldable pub validate : CorsPolicy → Result Str Unit
  unfolding validate_origins validate_lists no_origins
  validate policy =
      if no_origins policy.allowed_origins
      then err (codes "no allowed origins")
      else elim (validate_origins policy.allow_credentials policy.allowed_origins) [
        | err message ↦ err message
        | ok done ↦
            validate_lists
              (policy.allowed_methods ∷ policy.allowed_headers ∷ policy.exposed_headers ∷ [])
      ]

  unfoldable pub normalize_origin : Str → Str
  unfolding strip_slash
  normalize_origin origin = library.to_lowercase (strip_slash (library.trim origin))
