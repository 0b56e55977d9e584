-- ===== src/Grpc/Idempotency/Once.antt =====
-- What AIP-155 promises of a request id: the interceptor before a service, over the memory store.
use runtime_rs.Base.{
  true, ℕ, ◌≡◌, refl, if◌then◌else◌, false, none, some, Str, Bytes, arith, str_eq, str_eq_refl,
}
use runtime_rs.Base.Assoc
use runtime_rs.Base.Assoc.{get-remove}
use runtime_rs.Grpc.Status.{Status, Result, ok, err}
use runtime_rs.Grpc.Call
use runtime_rs.Grpc.Call.{Reflection, UnaryCall, UnaryReply}
use runtime_rs.Grpc.Idempotency.Contract.{Key, in_flight, done, StoreError}
use runtime_rs.Grpc.Idempotency.Memory.{MemoryStore}
use runtime_rs.Grpc.Idempotency
use runtime_rs.Grpc.Idempotency.{new_key}
use runtime_rs.Grpc.Idempotency.Name.{key_name}
use runtime_rs.Grpc.Idempotency.Claims.{IsKeyed, keyed_claims}
use runtime_rs.Grpc.Idempotency.Replays.{serving, over_memory, taken, fresh_ok, fresh_err}

module _ (R : Reflection) (sha256 : Bytes → Bytes) {A : Type 0} (domain : Str) (stale_after : ℕ)
    (create_error : StoreError → Status) (now : MemoryStore × A → ℕ)
    (h : UnaryCall R → A → Result Status (UnaryReply R) × A) where
  open R use {DynamicMessage, encode}

  -- The service behind the interceptor.
  abbrev pub serve :
      UnaryCall R → MemoryStore × A → Result Status (UnaryReply R) × (MemoryStore × A)
  serve call =
      Idempotency.intercept R sha256 (over_memory R domain stale_after create_error now) call
        (serving R h)

  module _ (call : UnaryCall R) (id : Str) (k : IsKeyed R call id) (m : MemoryStore) (a : A) where
    abbrev key : Key
    key = new_key sha256 call.path id

    serve-claims :
        serve call (m, a)
        ≡ Idempotency.claim_and_run R
            (over_memory R domain stale_after create_error now)
            key
            (some k.method.output)
            (serving R h call)
            (m, a)
    serve-claims =
        keyed_claims R sha256 (over_memory R domain stale_after create_error now) call (serving R h)
          (m, a) id k

    -- Where the key of a call is settled, the recorded response is replayed: the service does not
    -- run, and the store is unchanged.
    pub replays :
        (existing : Key)
        → Assoc.get (key_name sha256 call.path id) m.keys ≡ some existing
        → existing.state ≡ done
        → ((serve call (m, a)).0 ≡ ok (Call.new_reply R existing.response (some k.method.output)))
          × ((serve call (m, a)).1.1 ≡ a)
          × ((serve call (m, a)).1.0.keys ≡ m.keys)
    unfolding new_key
    replays existing there settled = ground (
      arith,
      serve-claims,
      taken R domain stale_after create_error now h call key (some k.method.output) m a existing
          there,
      settled,
    )

    -- Where the key of a call is in flight and its claim is not stale, the call is refused with the
    -- reason for it: the service does not run, and the store is unchanged.
    pub in_flight_refused :
        (existing : Key)
        → Assoc.get (key_name sha256 call.path id) m.keys ≡ some existing
        → existing.state ≡ in_flight
        → Idempotency.is_stale R
            (over_memory R domain stale_after create_error now)
            existing.create_time
            (m, a)
          ≡ false
        → ((serve call (m, a)).0
            ≡ err (
                Idempotency.refusal domain Idempotency.reason_in_flight
                  Idempotency.in_flight_message))
          × ((serve call (m, a)).1.1 ≡ a)
          × ((serve call (m, a)).1.0.keys ≡ m.keys)
    unfolding new_key
    in_flight_refused existing there flying fresh = ground (
      arith,
      serve-claims,
      taken R domain stale_after create_error now h call key (some k.method.output) m a existing
          there,
    )

    -- Where the key of a call is in flight and its claim is stale, the call is refused with the
    -- reason for it and the claim is taken out, so that the next attempt finds the key free: the
    -- service does not run, and no other key changes.
    pub abandoned_cleared :
        (existing : Key) (j : Str)
        → Assoc.get (key_name sha256 call.path id) m.keys ≡ some existing
        → existing.state ≡ in_flight
        → Idempotency.is_stale R
            (over_memory R domain stale_after create_error now)
            existing.create_time
            (m, a)
          ≡ true
        → ((serve call (m, a)).0
            ≡ err (
                Idempotency.refusal domain Idempotency.reason_abandoned
                  Idempotency.abandoned_message))
          × ((serve call (m, a)).1.1 ≡ a)
          × (Assoc.get j (serve call (m, a)).1.0.keys
              ≡ (if str_eq (key_name sha256 call.path id) j then none else Assoc.get j m.keys))
    unfolding new_key
    abandoned_cleared existing j there flying stale = ground (
      arith,
      serve-claims,
      taken R domain stale_after create_error now h call key (some k.method.output) m a existing
          there,
      get-remove key.name j m.keys,
    )

    -- Over the memory store, where the key of a call is free and the service fails, the caller is given the service's error
    -- and no key holds anything but what it held before: the call can be tried again.
    pub failure_releases :
        (status : Status) (j : Str)
        → Assoc.get (key_name sha256 call.path id) m.keys ≡ none
        → (h call a).0 ≡ err status
        → ((serve call (m, a)).0 ≡ err status)
          × ((serve call (m, a)).1.1 ≡ (h call a).1)
          × (Assoc.get j (serve call (m, a)).1.0.keys ≡ Assoc.get j m.keys)
    unfolding new_key
    failure_releases status j free fails = ground (
      arith,
      serve-claims,
      fresh_err R domain stale_after create_error now h call key (some k.method.output) m a status j
          free fails,
    )

    module _ (reply : UnaryReply R) (response : DynamicMessage) where
      claimed :
          (j : Str)
          → Assoc.get (key_name sha256 call.path id) m.keys ≡ none
          → (h call a).0 ≡ ok reply
          → Call.reply_message R reply ≡ ok response
          → ((serve call (m, a)).0 ≡ ok reply)
            × ((serve call (m, a)).1.1 ≡ (h call a).1)
            × (Assoc.get j (serve call (m, a)).1.0.keys ≡ (
                if str_eq (key_name sha256 call.path id) j
                then some (record key {
                  state = done;
                  response = encode response;
                  response_type = R.full_name (R.descriptor_of response);
                  create_time = some m.now;
                })
                else Assoc.get j m.keys))
      unfolding new_key
      claimed j free works readable = ground (
        arith,
        serve-claims,
        fresh_ok R domain stale_after create_error now h call key (some k.method.output) m a reply
            response j free works readable,
      )

  -- Over the memory store, where the key of a call is free and the service answers with a reply
  -- that can be read, the caller is given that reply; and each later call of that path and id, at any time until the
  -- store is changed, is given the recorded response: the service does not run, and the store is
  -- unchanged.
  pub runs_once :
      (call again : UnaryCall R) (id : Str) (k : IsKeyed R call id) (k_again : IsKeyed R again id)
      (m : MemoryStore) (a : A) (reply : UnaryReply R) (response : DynamicMessage)
      (m_later : MemoryStore) (a_later : A)
      → again.path ≡ call.path
      → Assoc.get (key_name sha256 call.path id) m.keys ≡ none
      → (h call a).0 ≡ ok reply
      → Call.reply_message R reply ≡ ok response
      → m_later.keys ≡ (serve call (m, a)).1.0.keys
      → ((serve call (m, a)).0 ≡ ok reply)
        × ((serve call (m, a)).1.1 ≡ (h call a).1)
        × ((serve again (m_later, a_later)).0
            ≡ ok (Call.new_reply R (encode response) (some k_again.method.output)))
        × ((serve again (m_later, a_later)).1.1 ≡ a_later)
        × ((serve again (m_later, a_later)).1.0.keys ≡ m_later.keys)
  runs_once call again id k k_again m a reply response m_later a_later same_path free works readable
        kept =
      let first =
        claimed call id k m a reply response (key_name sha256 call.path id) free works readable in
      let there : Assoc.get (key_name sha256 again.path id) m_later.keys
          ≡ some (record (new_key sha256 call.path id) {
            state = done;
            response = encode response;
            response_type = R.full_name (R.descriptor_of response);
            create_time = some m.now;
          }) =
        ground (arith, same_path, kept, first, str_eq_refl (key_name sha256 call.path id)) in
      let second = replays again id k_again m_later a_later _ there refl in
      (first.0, first.1, second.0, second.1, second.2)
