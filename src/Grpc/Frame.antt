-- ===== src/Grpc/Frame.antt =====
-- grpc/src/intercept.rs: the gRPC framing of one message, and the parts of a method's path.
pub mod RoundTrip
mod Tests
use runtime_rs.Base.{
  split_once, ℕ, ◌+◌, ◌-◌, ◌*◌, ◌/◌, ◌%◌, ◌^◌, ◌==◌, leb, ltb, if◌then◌else◌, Bool, true, false,
  Option, none, some, List, [], ◌∷◌, ◌++◌, Str, Bytes, length,
}

abbrev pub u32_max : ℕ
u32_max = 2 ^ 32 - 1

-- `BytesMut::put_u32`: big-endian.
put_u32 : ℕ → Bytes
put_u32 n = (n / 2 ^ 24 % 256) ∷ (n / 2 ^ 16 % 256) ∷ (n / 2 ^ 8 % 256) ∷ (n % 256) ∷ []

-- `u32::try_from(payload.len()).unwrap_or(u32::MAX)`
frame_length : ℕ → ℕ
frame_length n = if leb n u32_max then n else u32_max

pub frame : Bool → Bytes → Bytes
unfolding put_u32 frame_length
frame compressed payload =
    (if compressed then 1 else 0) ∷ (put_u32 (frame_length (length payload)) ++ payload)

-- The flag byte: `none` for anything but 0 and 1.
flag : ℕ → Option Bool
flag c = if c == 0 then some false else if c == 1 then some true else none

get_u32 : ℕ → ℕ → ℕ → ℕ → ℕ
get_u32 a b c d = a * 2 ^ 24 + b * 2 ^ 16 + c * 2 ^ 8 + d

-- What follows the flag and the four bytes of the length, if it is as long as they say.
unframe_rest : ℕ → ℕ → Bytes → Option (Bool × Bytes)
unframe_rest c len payload = elim (flag c) [
  | none ↦ none
  | some compressed ↦ if length payload == len then some (compressed, payload) else none
]

pub unframe : Bytes → Option (Bool × Bytes)
unfolding unframe_rest get_u32 flag
unframe (f ∷ a ∷ b ∷ c ∷ d ∷ payload) = unframe_rest f (get_u32 a b c d) payload
unframe _ = none

-- `trim_start_matches('/')`
trim_slashes : Str → Str
trim_slashes [] = []
trim_slashes (c ∷ s) = elim (c == b'/') [ true ↦ trim_slashes s | false ↦ c ∷ s ]

pub split_path : Str → Str × Str
unfolding trim_slashes
split_path path = elim (split_once b'/' (trim_slashes path)) [
  | some parts ↦ parts
  | none ↦ (path, [])
]
