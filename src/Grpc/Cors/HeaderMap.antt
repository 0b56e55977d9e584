-- ===== src/Grpc/Cors/HeaderMap.antt =====
-- The http crate's header map, as far as grpc/src/cors.rs uses it, and the names of the headers.
use runtime_rs.Base.{
  if◌then◌else◌, Bool, true, false, List, [], ◌∷◌, ◌++◌, Option, none, some, Str, codes, str_eq,
}

-- A header map: its names in lower case, each with its values in order.
abbrev pub Headers : Type 0
Headers = List (Str × Str)

unfoldable pub get : Str → Headers → Option Str
get name [] = none
get name ((n, v) ∷ headers) = if str_eq n name then some v else get name headers

unfoldable pub remove : Str → Headers → Headers
remove name [] = []
remove name ((n, v) ∷ headers) =
    let rest = remove name headers in if str_eq n name then rest else (n, v) ∷ rest

unfoldable pub insert : Str → Str → Headers → Headers
unfolding remove
insert name v headers = (name, v) ∷ remove name headers

abbrev pub append : Str → Str → Headers → Headers
append name v headers = headers ++ ((name, v) ∷ [])

abbrev pub is_empty : Str → Bool
is_empty [] = true
is_empty (_ ∷ _) = false

unfoldable pub non_empty : Str → Headers → Option Str
unfolding get
non_empty name headers = elim (get name headers) [
  | none ↦ none
  | some v ↦ if is_empty v then none else some v
]

abbrev pub origin_header : Str
origin_header = codes "origin"

abbrev pub allow_origin_header : Str
allow_origin_header = codes "access-control-allow-origin"

abbrev pub credentials_header : Str
credentials_header = codes "access-control-allow-credentials"

abbrev pub exposed_header : Str
exposed_header = codes "access-control-expose-headers"

abbrev pub method_header : Str
method_header = codes "access-control-request-method"

abbrev pub requested_header : Str
requested_header = codes "access-control-request-headers"

abbrev pub methods_header : Str
methods_header = codes "access-control-allow-methods"

abbrev pub headers_header : Str
headers_header = codes "access-control-allow-headers"

abbrev pub max_age_header : Str
max_age_header = codes "access-control-max-age"

abbrev pub vary_header : Str
vary_header = codes "vary"
