-- ===== src/Cache/Aside/Envelope.antt =====
-- cache/src/strategies/aside.rs: the stored envelope and its deadline. A system time is counted in
-- nanoseconds from the first that the platform can hold; `epoch` is 1970 and `limit` the first that
-- it cannot hold.
use runtime_rs.Base.{
  ℕ, ◌+◌, ◌-◌, ◌/◌, ◌^◌, ◌==◌, ltb, leb, ◌&&◌, not, if◌then◌else◌, Bool, true, false, Option, none,
  some, Str, Bytes, codes, ◌++◌, [],
}
use runtime_rs.Cache.Outcome.{Outcome, ok, err, internal, CacheError}

-- i64, over the native numbers.
pub data ℤ : Type 0 where
  pos negsuc : ℕ → ℤ

pub record Envelope : Type 0 where
  pub value : Option Bytes
  pub fresh : ℤ
  pub void : Bool

pub data StoredEntry : Type 0 where
  value : Bytes → Bool → StoredEntry
  void : StoredEntry

pub data Coded (A : Type 0) : Type 0 where
  coded : A → Coded A
  refused : Str → Coded A

-- serde_json: `String::from_utf8` with `RawValue::from_string`, `to_vec` and `from_slice`. A refusal
-- comes with its text.
pub record Codec : Type 0 where
  pub raw : Bytes → Coded Bytes
  pub to_vec : Envelope → Coded Bytes
  pub from_slice : Bytes → Coded Envelope

-- The times of the platform, and how its errors print.
pub record Platform : Type 0 where
  pub epoch : ℕ
  pub limit : ℕ
  pub predates : ℕ → Str
  pub out_of_range : ℕ → Str

unfoldable pub invalid_envelope : Str → CacheError
invalid_envelope reason = internal (codes "invalid Aside envelope: " ++ reason)

abbrev pub i64_max : ℕ
i64_max = 2 ^ 63 - 1

unfoldable pub unix_millis : Platform → ℕ → Outcome ℕ
unix_millis platform time =
    if ltb time platform.epoch
    then err (
        internal (codes "Aside freshness deadline predates Unix epoch: " ++ platform.predates time))
    else if leb ((time - platform.epoch) / 1_000_000) i64_max
    then ok ((time - platform.epoch) / 1_000_000)
    else err (
        internal (
          codes "Aside freshness deadline does not fit Unix milliseconds: "
          ++ platform.out_of_range time))

unfoldable pub fresh_until_millis : Platform → ℕ → ℕ → Outcome ℕ
fresh_until_millis platform now fresh_for =
    if fresh_for == 0
    then ok 0
    else if ltb (now + fresh_for) platform.limit
    then unix_millis platform (now + fresh_for)
    else err (internal (codes "Aside freshness deadline exceeds SystemTime"))

module _ (codec : Codec) where
  unfoldable pub encode : Envelope → Outcome Bytes
  encode envelope = elim (codec.to_vec envelope) [
    | coded frame ↦ ok frame
    | refused text ↦ err (invalid_envelope (codes "cannot encode envelope: " ++ text))
  ]

  -- `raw` refuses what is no UTF-8 and what is no JSON value; its text says which.
  unfoldable pub pack_value : Bytes → ℕ → Outcome Bytes
  unfolding encode
  pack_value body fresh_until_ms = elim (codec.raw body) [
    | coded json ↦ encode (record { value = some json; fresh = pos fresh_until_ms; void = false })
    | refused text ↦ err (invalid_envelope text)
  ]

  unfoldable pub pack_void : Outcome Bytes
  unfolding encode
  pack_void = encode (record { value = none; fresh = pos 0; void = true })

  -- `fresh != 0 && now_ms > fresh`
  unfoldable pub is_past : ℤ → ℕ → Bool
  is_past (pos deadline) now_ms = not (deadline == 0) && ltb deadline now_ms
  is_past (negsuc _) now_ms = true

  abbrev pub body_of : Option Bytes → Bytes
  body_of none = []
  body_of (some json) = json

  unfoldable pub unpack : Bytes → ℕ → Outcome StoredEntry
  unfolding is_past
  unpack frame now_ms = elim (codec.from_slice frame) [
    | refused text ↦ err (invalid_envelope (codes "cannot decode envelope: " ++ text))
    | coded envelope ↦
        if envelope.void
        then ok void
        else ok (value (body_of envelope.value) (is_past envelope.fresh now_ms))
  ]
