-- ===== src/Grpc/Frame/RoundTrip.antt =====
-- Framing and unframing, and paths.
use runtime_rs.Base.{
  split_once-join, ℕ, ◌/◌, ◌%◌, ◌^◌, ◌≤◌, ◌<◌, ◌≡◌, Bool, none, some, ◌∷◌, ◌++◌, Str, Bytes, length,
  arith, Lacks, All,
}
use runtime_rs.Grpc.Frame.{frame, unframe, split_path, get_u32, u32_max}

u32_round_trip :
    (n : ℕ)
    → n < 2 ^ 32
    → get_u32 (n / 2 ^ 24 % 256) (n / 2 ^ 16 % 256) (n / 2 ^ 8 % 256) (n % 256) ≡ n
unfolding get_u32
u32_round_trip n h = omega arith

-- A message of less than 2^32 bytes is read back from its frame, with its flag.
pub unframe-frame :
    (compressed : Bool) (payload : Bytes)
    → length payload < 2 ^ 32
    → unframe (frame compressed payload) ≡ some (compressed, payload)
unfolding unframe frame
unframe-frame compressed payload h = ground (arith, u32_round_trip (length payload) h)

-- A longer one is not: its length does not fit the header.
pub unframe-frame_long :
    (compressed : Bool) (payload : Bytes)
    → 2 ^ 32 ≤ length payload
    → unframe (frame compressed payload) ≡ none
unfolding unframe frame
unframe-frame_long compressed payload h = ground (arith, u32_round_trip u32_max)

abbrev pub IsByte : ℕ → Type 0
IsByte c = c < 256

-- Whatever `unframe` accepts is the frame of what it returns.
pub frame-unframe :
    (bytes : Bytes) (compressed : Bool) (payload : Bytes)
    → All IsByte bytes
    → unframe bytes ≡ some (compressed, payload)
    → frame compressed payload ≡ bytes
unfolding unframe frame
frame-unframe (f ∷ a ∷ b ∷ c ∷ d ∷ rest) compressed payload h e = ground arith
frame-unframe bytes compressed payload h e = ground arith

-- The path of a method gives back its service and its name, if the service's name holds no slash
-- and is not empty.
pub split_path-join :
    (c : ℕ) (service method : Str)
    → Lacks b'/' (c ∷ service)
    → split_path (b'/' ∷ ((c ∷ service) ++ (b'/' ∷ method))) ≡ (c ∷ service, method)
unfolding split_path
split_path-join c service method h = ground (arith, split_once-join b'/' (c ∷ service) method h)
