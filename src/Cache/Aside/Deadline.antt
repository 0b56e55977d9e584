-- ===== src/Cache/Aside/Deadline.antt =====
-- What the envelope keeps, and when a stored value counts as stale.
use runtime_rs.Base.{ℕ, ◌+◌, ◌<◌, ◌≤◌, ◌≡◌, ◌≢◌, true, false, none, some, arith, Bytes}
use runtime_rs.Cache.Outcome.{ok}
use runtime_rs.Cache.Aside.Envelope
use runtime_rs.Cache.Aside.Envelope.{
  Codec, Platform, coded, value, void, pos, is_past, pack_value, pack_void, unpack,
  fresh_until_millis, unix_millis,
}

-- Reading an envelope back gives the envelope that was written.
abbrev pub IsFaithful : Codec → Type 0
IsFaithful codec =
    (e : Envelope.Envelope) (frame : Bytes)
    → codec.to_vec e ≡ coded frame
    → codec.from_slice frame ≡ coded e

module _ (codec : Codec) (faithful : IsFaithful codec) (frame : Bytes) (now_ms : ℕ) where
  -- If JSON envelopes are read back as they were written, then a packed value is unpacked as its JSON
  -- text, with the answer whether its deadline has passed.
  pub unpack-pack_value :
      (body json : Bytes) (fresh_until : ℕ)
      → codec.raw body ≡ coded json
      → pack_value codec body fresh_until ≡ ok frame
      → unpack codec frame now_ms ≡ ok (value json (is_past codec (pos fresh_until) now_ms))
  unfolding pack_value unpack
  unpack-pack_value body json fresh_until text packed = ground (
    arith,
    text,
    packed,
    faithful (record { value = some json; fresh = pos fresh_until; void = false }) frame,
  )

  -- Then the marker of an absence is read back as an absence.
  pub unpack-pack_void : pack_void codec ≡ ok frame → unpack codec frame now_ms ≡ ok void
  unfolding pack_void unpack
  unpack-pack_void packed =
      ground (arith, packed, faithful (record { value = none; fresh = pos 0; void = true }) frame)

-- A deadline set for a lease is past at a later reading only if more than the lease has gone by, and
-- it is, once a millisecond more has, unless the deadline is the epoch's first millisecond: 0 stands
-- for none.
pub deadline_window :
    (codec : Codec) (platform : Platform) (now fresh_for later deadline now_ms : ℕ)
    → fresh_for ≢ 0
    → fresh_until_millis platform now fresh_for ≡ ok deadline
    → unix_millis platform later ≡ ok now_ms
    → (is_past codec (pos deadline) now_ms ≡ true → now + fresh_for < later)
      × (deadline ≢ 0
          → now + fresh_for + 1_000_000 ≤ later
          → is_past codec (pos deadline) now_ms ≡ true)
unfolding fresh_until_millis unix_millis is_past
deadline_window codec platform now fresh_for later deadline now_ms some_lease until at =
    ground (arith, some_lease, until, at)
