-- ===== src/Cache/Flight/Invariant.antt =====
-- What holds of a Flight group in every reachable state.
use native.Mathlib.Numerals.{add-one}
use runtime_rs.Base.{
  ℕ, zero, suc, ◌+◌, ◌≤◌, ◌<◌, ◌≡◌, ◌≢◌, refl, ◌==◌, max, Bool, true, false, Option, none, some,
  Str, arith, str_eq_iff, Option-cases, inl, inr, Bool-cases, ltb→lt, sym, ap, leb, ◌∙◌,
}
use runtime_rs.Base.Assoc
use runtime_rs.Base.Assoc.{get-insert, get-remove}
use runtime_rs.Cache.Flight
use runtime_rs.Cache.Flight.{
  Load, Phase, unborn, running, finished, removed, sent, closed, Flight, update, Admission, joined,
  started, refused, Step, call, finishes, panics, dead, unlists, sends, releases, Reach, here, next,
}

-- The load can be joined.
abbrev pub is_listed : Phase → Bool
is_listed running = true
is_listed dead = true
is_listed (finished _) = true
is_listed _ = false

-- The load holds a permit.
abbrev pub weight : Phase → ℕ
weight unborn = 0
weight (closed _) = 0
weight dead = 0
weight _ = 1

pub busy : ℕ → (ℕ → Phase) → ℕ
busy zero phase = 0
busy (suc n) phase = weight (phase n) + busy n phase

busy-update_above :
    (n i : ℕ) (phase : ℕ → Phase) (p : Phase) → n ≤ i → busy n (update phase i p) ≡ busy n phase
unfolding busy
busy-update_above zero i phase p h = refl
busy-update_above (suc n) i phase p h =
    ground (arith, busy-update_above n i phase p, ap weight (update_ne phase p (omega arith)))
  where
    update_ne : (phase : ℕ → Phase) (p : Phase) → i ≢ n → update phase i p n ≡ phase n
    update_ne phase p d = ground arith

busy-update :
    (n i : ℕ) (phase : ℕ → Phase) (p : Phase)
    → i < n
    → busy n (update phase i p) + weight (phase i) ≡ busy n phase + weight p
unfolding busy
busy-update zero i phase p h = elim h [ ]
busy-update (suc n) i phase p h = elim (Bool-cases (i == n)) [
  | inl same ↦
      let e : i ≡ n = ground arith in
      rw (same, update) (omega (arith, busy-update_above n i phase p, ap (λ j. weight (phase j)) e))
  | inr other ↦ rw (other, update) (omega (arith, busy-update n i phase p (ground arith)))
]

busy-spawn : (n : ℕ) (phase : ℕ → Phase) → busy (n + 1) (update phase n running) ≡ 1 + busy n phase
unfolding busy
busy-spawn n phase =
    rw add-one (omega (arith, busy-update_above n n phase running (omega arith), update_self))
  where
    update_self : weight (update phase n running n) ≡ 1
    update_self = ground arith

-- The map holds exactly the loads that can be joined, each under its own key, and the permits
-- that are left and those that loads hold make up the budget.
pub record IsConsistent (budget : ℕ) (f : Flight) : Type 0 where
  pub fresh : (i : ℕ) → f.spawned ≤ i → f.phase i ≡ unborn
  pub listed : (i : ℕ) → is_listed (f.phase i) ≡ true → Assoc.get (f.key i) f.calls ≡ some i
  pub owned :
      (k : Str) (i : ℕ)
      → Assoc.get k f.calls ≡ some i
      → (is_listed (f.phase i) ≡ true) × (f.key i ≡ k)
  pub permits : f.permits + busy f.spawned f.phase ≡ budget

new-IsConsistent : (c : ℕ) → IsConsistent (max c 1) (Flight.new c)
unfolding Flight.new busy Assoc.get
new-IsConsistent c = record {
  fresh = λ i h. refl;
  listed = λ i h. cc;
  owned = λ k i h. absurd (ground arith);
  permits = omega arith;
}

born : {c : ℕ} {f : Flight} (i : ℕ) → IsConsistent c f → f.phase i ≢ unborn → i < f.spawned
born {f} i h d = elim (Bool-cases (leb f.spawned i)) [
  | inl above ↦ absurd (d (h.fresh i (ground arith)))
  | inr below ↦ ground arith
]

module _ {c : ℕ} {f : Flight} (h : IsConsistent c f) where
  -- The books balance where a load moves from one phase to another.
  permits_moved :
      (i : ℕ) (p q : Phase)
      → f.phase i ≡ q
      → q ≢ unborn
      → f.permits + busy f.spawned (update f.phase i p) + weight q ≡ c + weight p
  permits_moved i p q at alive = omega (
    arith,
    h.permits,
    busy-update f.spawned i f.phase p (born i h (λ e. alive (sym at ∙ e))),
    ap weight at,
  )

  finish-IsConsistent :
      (i : ℕ) (outcome : Option Load)
      → f.phase i ≡ running
      → IsConsistent c (Flight.finish i outcome f)
  unfolding Flight.finish
  finish-IsConsistent i outcome at = record {
    fresh = λ j above. ground (arith, h.fresh j, h.fresh i);
    listed = λ j l. ground (arith, h.listed j, h.listed i);
    owned = λ k j e. ground (arith, h.owned k j e);
    permits =
        omega (arith, permits_moved i (finished (Flight.bounded outcome)) running at (λ e. cc e));
  }

  panic-IsConsistent : (i : ℕ) → f.phase i ≡ running → IsConsistent c (Flight.panic i f)
  unfolding Flight.panic
  panic-IsConsistent i at = record {
    fresh = λ j above. ground (arith, h.fresh j, h.fresh i);
    listed = λ j l. ground (arith, h.listed j, h.listed i);
    owned = λ k j e. ground (arith, h.owned k j e);
    permits = omega (arith, permits_moved i dead running at (λ e. cc e));
  }

  unlist-IsConsistent :
      (i : ℕ) (result : Load)
      → f.phase i ≡ finished result
      → IsConsistent c (Flight.unlist i result f)
  unfolding Flight.unlist
  unlist-IsConsistent i result at = record {
    fresh = λ j above. ground (arith, h.fresh j, h.fresh i);
    listed = λ j l. ground (
      arith,
      h.listed j,
      h.listed i,
      get-remove (f.key i) (f.key j) f.calls,
      str_eq_iff (f.key i) (f.key j),
    );
    owned = λ k j e.
        ground
          (arith, h.owned k j, h.listed i, get-remove (f.key i) k f.calls, str_eq_iff (f.key i) k);
    permits = omega (arith, permits_moved i (removed result) (finished result) at (λ e. cc e));
  }

  send-IsConsistent :
      (i : ℕ) (result : Load) → f.phase i ≡ removed result → IsConsistent c (Flight.send i result f)
  unfolding Flight.send
  send-IsConsistent i result at = record {
    fresh = λ j above. ground (arith, h.fresh j, h.fresh i);
    listed = λ j l. ground (arith, h.listed j);
    owned = λ k j e. ground (arith, h.owned k j e);
    permits = omega (arith, permits_moved i (sent result) (removed result) at (λ e. cc e));
  }

  release-IsConsistent :
      (i : ℕ) (result : Load) → f.phase i ≡ sent result → IsConsistent c (Flight.release i result f)
  unfolding Flight.release
  release-IsConsistent i result at = record {
    fresh = λ j above. ground (arith, h.fresh j, h.fresh i);
    listed = λ j l. ground (arith, h.listed j);
    owned = λ k j e. ground (arith, h.owned k j e);
    permits = omega (arith, permits_moved i (closed result) (sent result) at (λ e. cc e));
  }

  start-IsConsistent : (k : Str) → Assoc.get k f.calls ≡ none → IsConsistent c (Flight.start k f).1
  unfolding Flight.start busy
  start-IsConsistent k absent = elim (Bool-cases (f.permits == 0)) [
    | inl none_left ↦ rw (none_left, Flight.start) h
    | inr some_left ↦
        rw (some_left, Flight.start)
          (record {
            fresh = λ j above. ground (arith, h.fresh j);
            listed = λ j l. ground (
              arith,
              h.listed j,
              get-insert k (f.key j) f.spawned f.calls,
              get-insert k k f.spawned f.calls,
              str_eq_iff k (f.key j),
              str_eq_iff k k,
            );
            owned = λ j i e. ground (
              arith,
              h.owned j i,
              h.fresh f.spawned,
              get-insert k j f.spawned f.calls,
              str_eq_iff k j,
            );
            permits =
                omega (
                  arith,
                  h.permits,
                  busy-spawn f.spawned f.phase,
                  ltb→lt 0 f.permits (ground arith),
                );
          })
  ]

  admit-IsConsistent : (k : Str) → IsConsistent c (Flight.admit k f).1
  unfolding Flight.admit
  admit-IsConsistent k = elim (Option-cases (Assoc.get k f.calls)) [
    | inl absent ↦ rw (absent, Flight.admit) (start-IsConsistent k absent)
    | inr (i, there) ↦ rw (there, Flight.admit) h
  ]

Step-IsConsistent : {c : ℕ} {f g : Flight} → Step f g → IsConsistent c f → IsConsistent c g
Step-IsConsistent (call k) h = admit-IsConsistent h k
Step-IsConsistent (finishes i outcome at) h = finish-IsConsistent h i outcome at
Step-IsConsistent (panics i at) h = panic-IsConsistent h i at
Step-IsConsistent (unlists i result at) h = unlist-IsConsistent h i result at
Step-IsConsistent (sends i result at) h = send-IsConsistent h i result at
Step-IsConsistent (releases i result at) h = release-IsConsistent h i result at

-- Every reachable state of a group that was made with room for `c` loads is consistent.
pub Reach-IsConsistent : (c : ℕ) {f : Flight} → Reach (Flight.new c) f → IsConsistent (max c 1) f
Reach-IsConsistent c here = new-IsConsistent c
Reach-IsConsistent c (next r st) = Step-IsConsistent st (Reach-IsConsistent c r)
