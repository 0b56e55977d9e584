-- ===== src/Cache/Aside/Lock.antt =====
-- The lock of a load, over the memory driver.
use runtime_rs.Base.{ℕ, ◌≤◌, ◌≡◌, ◌⊎◌, ◌∙◌, inl, inr, none, some, Str, Bytes, arith}
use runtime_rs.Base.Assoc
use runtime_rs.Cache.Outcome.{Outcome, ok, panic, proceed}
use runtime_rs.Cache.Policy
use runtime_rs.Cache.Policy.{Options, Freshness}
use runtime_rs.Cache.Memory
use runtime_rs.Cache.Memory.{World}
use runtime_rs.Cache.Memory.View.{view, present, leased}
use runtime_rs.Cache.Memory.Ticks.{Ticks, add_free, release_frees, release-Ticks}
use runtime_rs.Cache.Aside
use runtime_rs.Cache.Aside.{AsideImpl, owned}
use runtime_rs.Cache.Aside.Envelope.{Codec, Platform}
use runtime_rs.Cache.Aside.Effects.{value_or, Keeps, load_and_store_claimed-Keeps}
use runtime_rs.Cache.Aside.OnMemory.{on_memory, Idle, lock, lock-Idle}

-- No later reading of the clock is an earlier time.
abbrev pub Monotonic : World → Type 0
Monotonic w = (n m : ℕ) → n ≤ m → w.clock n ≤ w.clock m

module _ (codec : Codec) (platform : Platform) {A : Type 0} (d : AsideImpl (World × A)) (id : Str)
    (clock : (s : World × A) → Idle (lock d id) s (d.outside.now s).1)
    (tokens : (s : World × A) → Idle (lock d id) s (d.outside.token s).1)
    (loads : Keeps (Idle (lock d id)) (d.outside.loader id)) where
  -- The state before the lock is tried.
  abbrev trying : World × A → World × A
  trying s = (d.outside.token s).1

  abbrev claimed : World × A → Outcome Aside.Claim × (World × A)
  claimed s = Aside.claim codec platform (on_memory d) id s

  -- A claim of a free lock is won, or panics and leaves it free.
  claim_free :
      (s : World × A)
      → Assoc.get (lock d id) s.0.map ≡ none
      → Ticks s.0 (claimed s).1.0
        × (((claimed s).0 ≡ ok (owned (lock d id) (d.outside.token s).0))
              × (Assoc.get (lock d id) (claimed s).1.0.map
                  ≡ some (leased (trying s).0 (d.outside.token s).0 d.lock_lease))
            ⊎ ((claimed s).0 ≡ panic) × (Assoc.get (lock d id) (claimed s).1.0.map ≡ none))
  unfolding Aside.claim
  claim_free s free =
      ground (arith, tokens s, add_free (lock d id) (d.outside.token s).0 d.lock_lease (trying s).0)

  -- Whatever the loader does and however it ends, the owner's release frees the lock.
  owner_frees :
      (freshness : Freshness) (token : Bytes) (w : World) (s : World × A) (t : ℕ)
      → Monotonic s.0
      → Assoc.get (lock d id) s.0.map ≡ some (leased w token d.lock_lease)
      → let end =
          (Aside.after_claim codec platform
            (on_memory d)
            id
            freshness
            (owned (lock d id) token)
            s).1 in
        present end.0 ≤ t → view t end.0 (lock d id) ≡ none
  unfolding Aside.after_claim Aside.release_owned
  owner_frees freshness token w s t mono there late =
      let u = (Aside.load_and_store_claimed codec platform (on_memory d) id freshness s).1 in
      let idle =
        load_and_store_claimed-Keeps codec platform (Idle (lock d id)) (on_memory d) id
          (lock-Idle d id clock loads) freshness s in
      let ticks = release-Ticks (lock d id) token u.0 in
      let end = (Memory.delete_if (lock d id) token u.0).1 in
      let early : (u.0.clock u.0.reads ≤ t) =
        ground (arith, idle, ticks, late, mono u.0.reads end.reads ticks.1) in
      (release_frees (lock d id) token d.lock_lease w u.0 t (idle.0 ∙ there) early).1

  -- What follows the resolution of the options.
  abbrev attempted : Freshness → World × A → Outcome Bytes × (World × A)
  attempted freshness s =
      proceed (claimed s).0 (Aside.after_claim codec platform (on_memory d) id freshness)
        (claimed s).1

  attempt_frees :
      (freshness : Freshness) (s : World × A) (t : ℕ)
      → Monotonic s.0
      → Assoc.get (lock d id) s.0.map ≡ none
      → present (attempted freshness s).1.0 ≤ t
      → view t (attempted freshness s).1.0 (lock d id) ≡ none
  attempt_frees freshness s t mono free late =
      let result = claim_free s free in
      elim result.1 [
        | inl (won, there) ↦ ground (
          arith,
          won,
          late,
          owner_frees freshness (d.outside.token s).0 (trying s).0 (claimed s).1 t
              (λ n m h. ground (arith, result.0, mono n m h)) there,
        )
        | inr (failed, absent) ↦ ground (arith, failed, absent)
      ]

  -- Over the memory driver, if there is no lock entry of an id and the clock never goes back,
  -- then a load of the id that has ended, well, with an error or by a panic of the loader or of the
  -- driver, leaves no lock of it to be seen. The loader may do what it likes but touch the lock.
  pub load_frees_lock :
      (opts : Options) (s : World × A) (t : ℕ)
      → Monotonic s.0
      → Assoc.get (lock d id) s.0.map ≡ none
      → let end = (Aside.load_and_store codec platform (on_memory d) id opts s).1 in
        present end.0 ≤ t → view t end.0 (lock d id) ≡ none
  unfolding Aside.load_and_store
  load_frees_lock opts s t mono free late =
      let ttl = Policy.resolve_ttl d.default_ttl d.require_ttl opts in
      let stale = Policy.resolve_stale d.default_stale opts in
      let fresh = Policy.freshness (value_or 0 ttl) stale in
      let none_fresh : Freshness = record { fresh_for = 0; hard_ttl = 0 } in
      ground (arith, free, attempt_frees (value_or none_fresh fresh) s t mono free)
