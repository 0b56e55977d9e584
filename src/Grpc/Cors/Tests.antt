-- ===== src/Grpc/Cors/Tests.antt =====
-- Cross-origin requests at concrete inputs.
use Prim.Native.Nat.{suc}
use runtime_rs.Base.{
  ℕ, ◌≡◌, refl, true, false, [], ◌∷◌, none, some, Str, codes, str_eq, contains_char, ◌&&◌,
  if◌then◌else◌, arith,
}
use runtime_rs.Grpc.Status.{Result, ok}
use runtime_rs.Grpc.Cors
use runtime_rs.Grpc.Cors.{
  Library, CorsPolicy, Compiled, Request, Response, get, non_empty, origin_header, method_header,
  allow_origin_header,
}
use runtime_rs.Grpc.Cors.Origins.{Discloses, call-Discloses, preflight_exact, lists, allows_method}

-- Texts as they are, and a host in each.
abbrev library : Library
library = record {
  is_header_value = λ _. true;
  to_str = some;
  parse_uri = λ text. some (record { scheme = some text; host = some text; path_and_query = none });
  trim = λ text. text;
  to_lowercase = λ text. text;
  to_uppercase = λ text. text;
  debug_print = λ text. text;
  print_number = λ _. codes "600";
}

abbrev home : Str
home = codes "https://a.b"

abbrev policy : CorsPolicy
policy = record {
  allowed_origins = home ∷ [];
  allowed_methods = [];
  allowed_headers = [];
  exposed_headers = [];
  allow_credentials = true;
  max_age = 0;
}

abbrev compiled : Compiled
compiled = record {
  any_origin = false;
  origins = home ∷ [];
  methods = codes "GET, POST, PATCH, PUT, DELETE, OPTIONS";
  allow_methods = Cors.default_methods;
  headers =
      codes
        "Content-Type, Authorization, X-Goog-Api-Client, X-Goog-Request-Params, X-Goog-User-Project, X-Api-Key";
  any_header = false;
  exposed = none;
  credentials = true;
  max_age = none;
}

compiled-cors : Cors.cors library policy ≡ ok compiled
unfolding Cors.cors str_eq contains_char
compiled-cors = refl

abbrev asked : Request
asked = record {
  method = codes "OPTIONS";
  headers = (origin_header, home) ∷ (method_header, codes "PUT") ∷ [];
  body = [];
}

-- A service that counts its calls.
abbrev service : Request → ℕ → Result Str Response × ℕ
service request n = (ok (record { status = 200; headers = []; body = [] }), suc n)

abbrev read : Request
read = record asked { method = codes "GET" }

abbrev answer : Response
answer = record {
  status = 200;
  headers = Cors.decorate library compiled home ((Cors.vary_header, codes "Origin") ∷ []);
  body = [];
}

call-Discloses_example : Discloses library policy read answer.headers
unfolding Cors.call Cors.allowed get str_eq
call-Discloses_example =
    call-Discloses library policy compiled service read 0 answer compiled-cors
      (λ served h. ground (arith, h)) refl

preflight_exact_example :
    (response : Response) × (Cors.call library compiled service asked 0 ≡ (ok response, 0))
    × (response.status ≡ (
        if lists library policy home && allows_method library policy (codes "PUT")
        then 204
        else 403))
    × (response.status ≡ 403 → get allow_origin_header response.headers ≡ none)
unfolding non_empty str_eq
preflight_exact_example =
    preflight_exact library policy compiled service asked 0 home (codes "PUT") compiled-cors refl
      refl refl
