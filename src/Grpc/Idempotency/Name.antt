-- ===== src/Grpc/Idempotency/Name.antt =====
-- grpc/src/idempotency/mod.rs: the name of a key, over a digest (SHA-256) that is a parameter.
mod Tests
use runtime_rs.Base.{
  ℕ, ◌+◌, ◌-◌, ◌*◌, ◌/◌, ◌%◌, ◌≡◌, ◌<◌, refl, ltb, if◌then◌else◌, List, [], ◌∷◌, ◌++◌, Str, Bytes,
  codes, arith, Lacks, All, segment-injective, append-left_cancel,
}

-- UTF-8, as `str::as_bytes` gives it.
utf8 : ℕ → Bytes
utf8 c =
    if ltb c 0x80
    then c ∷ []
    else if ltb c 0x800
    then (0xc0 + c / 64) ∷ (0x80 + c % 64) ∷ []
    else if ltb c 0x10000
    then (0xe0 + c / 4096) ∷ (0x80 + c / 64 % 64) ∷ (0x80 + c % 64) ∷ []
    else (0xf0 + c / 262144) ∷ (0x80 + c / 4096 % 64) ∷ (0x80 + c / 64 % 64) ∷ (0x80 + c % 64) ∷ []

pub as_bytes : Str → Bytes
unfolding utf8
as_bytes [] = []
as_bytes (c ∷ s) = utf8 c ++ as_bytes s

hex_digit : ℕ → ℕ
hex_digit d = if ltb d 10 then 48 + d else 87 + d

-- `{byte:02x}` for each byte.
hex : Bytes → Str
unfolding hex_digit
hex [] = []
hex (b ∷ bytes) = hex_digit (b / 16) ∷ hex_digit (b % 16) ∷ hex bytes

-- What the hasher is fed: the method, a zero byte, the id.
abbrev pub digest_input : Str → Str → Bytes
digest_input method request_id = as_bytes method ++ (0 ∷ as_bytes request_id)

module _ (sha256 : Bytes → Bytes) where
  unfoldable pub key_name : Str → Str → Str
  unfolding hex as_bytes
  key_name method request_id =
      codes "idempotencyKeys/" ++ hex (sha256 (digest_input method request_id))

abbrev pub IsByte : ℕ → Type 0
IsByte b = b < 256

hex_digit-injective : (a b : ℕ) → a < 16 → b < 16 → hex_digit a ≡ hex_digit b → a ≡ b
unfolding hex_digit
hex_digit-injective a b h k e = ground arith

hex-injective : (s t : Bytes) → All IsByte s → All IsByte t → hex s ≡ hex t → s ≡ t
unfolding hex
hex-injective [] [] h k e = refl
hex-injective [] (b ∷ t) h k e = cc
hex-injective (a ∷ s) [] h k e = cc
hex-injective (a ∷ s) (b ∷ t) (p, h) (q, k) e =
    let high = hex_digit-injective (a / 16) (b / 16) (omega arith) (omega arith) (cc) in
    let low = hex_digit-injective (a % 16) (b % 16) (omega arith) (omega arith) (cc) in
    let rest = hex-injective s t h k (cc) in cc (rest, byte a b high low)
  where
    byte : (a b : ℕ) → a / 16 ≡ b / 16 → a % 16 ≡ b % 16 → a ≡ b
    byte a b h l = omega arith

Lacks-utf8 : (c : ℕ) (s : Bytes) → 0 < c → Lacks 0 s → Lacks 0 (utf8 c ++ s)
unfolding utf8
Lacks-utf8 c s h k = ground arith

Lacks-as_bytes : (s : Str) → All (λ c. 0 < c) s → Lacks 0 (as_bytes s)
unfolding as_bytes
Lacks-as_bytes [] h = tt
Lacks-as_bytes (c ∷ s) (p, h) = Lacks-utf8 c (as_bytes s) p (Lacks-as_bytes s h)

utf8-injective :
    (c d : ℕ) (s t : Bytes)
    → c < 0x110000
    → d < 0x110000
    → utf8 c ++ s ≡ utf8 d ++ t
    → (c ≡ d) × (s ≡ t)
unfolding utf8
utf8-injective c d s t h k e = ground arith

abbrev pub IsText : Str → Type 0
IsText = All (λ c. c < 0x110000)

as_bytes-injective : (s t : Str) → IsText s → IsText t → as_bytes s ≡ as_bytes t → s ≡ t
unfolding as_bytes utf8
as_bytes-injective [] [] h k e = refl
as_bytes-injective [] (d ∷ t) h k e = absurd (ground arith)
as_bytes-injective (c ∷ s) [] h k e = absurd (ground arith)
as_bytes-injective (c ∷ s) (d ∷ t) (p, h) (q, k) e =
    let first = utf8-injective c d (as_bytes s) (as_bytes t) p q e in
    cc (first.0, as_bytes-injective s t h k first.1)

-- Where the digests of two inputs are made of bytes and tell the inputs apart, the two keys have
-- one name only if they are of the same method and the same request id: methods hold no NUL, and
-- texts are made of code points.
pub key_name-injective :
    (sha256 : Bytes → Bytes) (m m' id id' : Str)
    → All IsByte (sha256 (digest_input m id))
    → All IsByte (sha256 (digest_input m' id'))
    → (sha256 (digest_input m id) ≡ sha256 (digest_input m' id')
        → digest_input m id ≡ digest_input m' id')
    → IsText m × IsText m' × IsText id × IsText id'
    → All (λ c. 0 < c) m
    → All (λ c. 0 < c) m'
    → key_name sha256 m id ≡ key_name sha256 m' id'
    → (m ≡ m') × (id ≡ id')
unfolding key_name
key_name-injective sha256 m m' id id' bytes bytes' distinct (tm, tm', ti, ti') zm zm' e =
    let digests = append-left_cancel (codes "idempotencyKeys/") _ _ e in
    let inputs = distinct (hex-injective _ _ bytes bytes' digests) in
    let parts =
      segment-injective 0 (as_bytes m) (as_bytes m') (as_bytes id) (as_bytes id')
        (Lacks-as_bytes m zm) (Lacks-as_bytes m' zm') inputs in
    (as_bytes-injective m m' tm tm' parts.0, as_bytes-injective id id' ti ti' parts.1)
