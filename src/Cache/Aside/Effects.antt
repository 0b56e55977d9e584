-- ===== src/Cache/Aside/Effects.antt =====
-- What a load may change, over any driver: whatever relation between states the calls that it makes
-- keep.
use runtime_rs.Base.{ℕ, [], Str, Bytes, arith}
use runtime_rs.Cache.Outcome.{Outcome, Exec, ok, err, panic}
use runtime_rs.Cache.Keyspace
use runtime_rs.Cache.Policy.{Freshness}
use runtime_rs.Cache.Aside
use runtime_rs.Cache.Aside.{AsideImpl, owned, published, published_void, unclaimed}
use runtime_rs.Cache.Aside.Envelope.{Codec, Platform, pack_value, pack_void, fresh_until_millis}

-- `R` holds from each state to the one that the operation leaves.
abbrev pub Keeps {ℓ} : {S A : Type ℓ} → (S → S → Type ℓ) → Exec S A → Type ℓ
Keeps {S = S} R m = (s : S) → R s (m s).1

abbrev pub value_or {ℓ} : {A : Type ℓ} → A → Outcome A → A
value_or otherwise (ok a) = a
value_or otherwise (err e) = otherwise
value_or otherwise panic = otherwise

-- The calls of a load of `id`.
pub record Calls (S : Type 0) (R : S → S → Type 0) (d : AsideImpl S) (id : Str) : Type 0 where
  pub same : (s : S) → R s s
  pub next : {s t u : S} → R s t → R t u → R s u
  pub clock : (s : S) → R s (d.outside.now s).1
  pub loads : Keeps R (d.outside.loader id)
  pub gets : Keeps R (d.driver.get (Keyspace.aside_entry d.keyspace id))
  pub sets :
      (v : Bytes) (ttl : ℕ) → Keeps R (d.driver.set (Keyspace.aside_entry d.keyspace id) v ttl)

module _ (codec : Codec) (platform : Platform) {S : Type 0} (R : S → S → Type 0) (d : AsideImpl S)
    (id : Str) (calls : Calls S R d id) where
  pub read-Keeps : Keeps R (Aside.read codec platform d id)
  unfolding Aside.read
  read-Keeps s =
      let got = d.driver.get (Keyspace.aside_entry d.keyspace id) s in
      ground (arith, calls.gets s, calls.next (calls.gets s) (calls.clock got.1))

  pub remember_absence-Keeps :
      Keeps R (Aside.remember_absence codec platform d (Keyspace.aside_entry d.keyspace id))
  unfolding Aside.remember_absence
  remember_absence-Keeps s =
      ground (arith, calls.same s, calls.sets (value_or [] (pack_void codec)) d.negative_ttl s)

  pub store_loaded-Keeps :
      (freshness : Freshness) (loaded : Bytes)
      → Keeps R (
          Aside.store_loaded codec platform d (Keyspace.aside_entry d.keyspace id) freshness loaded)
  unfolding Aside.store_loaded
  store_loaded-Keeps freshness loaded s =
      let fresh_until =
        value_or 0 (fresh_until_millis platform (d.outside.now s).0 freshness.fresh_for) in
      let frame = value_or [] (pack_value codec loaded fresh_until) in
      let written = calls.sets frame freshness.hard_ttl (d.outside.now s).1 in
      ground (arith, calls.clock s, calls.next (calls.clock s) written)

  pub load_and_store_claimed-Keeps :
      (freshness : Freshness) → Keeps R (Aside.load_and_store_claimed codec platform d id freshness)
  unfolding Aside.load_and_store_claimed
  load_and_store_claimed-Keeps freshness s =
      let after = (d.outside.loader id s).1 in
      ground (
        arith,
        calls.loads s,
        calls.next (calls.loads s) (remember_absence-Keeps after),
        calls.next (calls.loads s)
            (store_loaded-Keeps freshness (value_or [] (d.outside.loader id s).0) after),
      )
