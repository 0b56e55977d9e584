-- ===== src/Cache/Flight/Progress.antt =====
-- What the callers of a Flight group can rely on.
use runtime_rs.Base.{
  ℕ, ◌+◌, ◌≤◌, ◌<◌, ◌≡◌, ◌≢◌, refl, max, true, false, Option, none, some, Str, arith, str_eq_refl,
  Option-cases, inl, inr, ◌⊎◌, Bool-cases, leb,
}
use runtime_rs.Base.Assoc
use runtime_rs.Base.Assoc.{get-remove}
use runtime_rs.Cache.Outcome.{overloaded}
use runtime_rs.Cache.Flight
use runtime_rs.Cache.Flight.{
  Load, Phase, unborn, running, finished, removed, sent, closed, Flight, update, borrow, Admission,
  joined, started, refused, Step, call, finishes, panics, dead, unlists, sends, releases, Reach,
  here, next,
}
use runtime_rs.Cache.Flight.Invariant.{is_listed, busy, IsConsistent, Reach-IsConsistent}

-- Whatever the callers and tasks have done, two loads of one key that can both be joined are one
-- and the same load.
pub single_flight :
    (c : ℕ) {f : Flight} (i j : ℕ)
    → Reach (Flight.new c) f
    → is_listed (f.phase i) ≡ true
    → is_listed (f.phase j) ≡ true
    → f.key i ≡ f.key j
    → i ≡ j
single_flight c i j r li lj same =
    let h = Reach-IsConsistent c r in ground (arith, h.listed i li, h.listed j lj)

-- In every reachable state the loads that hold a permit and the permits that are left make up the
-- number that the group was made for, or one: no more loads are under way at once.
pub loads_within_permits :
    (c : ℕ) {f : Flight}
    → Reach (Flight.new c) f
    → (busy f.spawned f.phase + f.permits ≡ max c 1) × (busy f.spawned f.phase ≤ max c 1)
loads_within_permits c {f} r =
    let h = Reach-IsConsistent c r in (omega (arith, h.permits), omega (arith, h.permits))

-- A caller of a key whose load can be joined joins that load, also when no permit is left, and the
-- group is unchanged.
pub admit_joins :
    (c : ℕ) {f : Flight} (k : Str) (i : ℕ)
    → Reach (Flight.new c) f
    → is_listed (f.phase i) ≡ true
    → f.key i ≡ k
    → Flight.admit k f ≡ (joined i, f)
unfolding Flight.admit
admit_joins c {f} k i r l same = let h = Reach-IsConsistent c r in ground (arith, h.listed i l)

-- A caller of a key that no load can be joined for is refused as `Overloaded` if no permit is
-- left, and the group is unchanged; else it starts the next load, which runs for that key, can be
-- joined and takes one permit.
pub admit_starts :
    (c : ℕ) {f : Flight} (k : Str)
    → Reach (Flight.new c) f
    → ((i : ℕ) → is_listed (f.phase i) ≡ true → f.key i ≢ k)
    → ((f.permits ≡ 0) × (Flight.admit k f ≡ (refused overloaded, f)))
      ⊎ ((0 < f.permits)
          × ((Flight.admit k f).0 ≡ started f.spawned)
          × (is_listed ((Flight.admit k f).1.phase f.spawned) ≡ true)
          × ((Flight.admit k f).1.key f.spawned ≡ k)
          × ((Flight.admit k f).1.permits + 1 ≡ f.permits))
unfolding Flight.admit
admit_starts c {f} k r other =
    let h = Reach-IsConsistent c r in
    elim (Option-cases (Assoc.get k f.calls)) [
      | inl absent ↦ ground arith
      | inr (i, there) ↦ absurd (other i (h.owned k i there).0 (h.owned k i there).1)
    ]

born_of_borrow :
    (c : ℕ) {f : Flight} (i : ℕ) (result : Load)
    → IsConsistent c f
    → borrow (f.phase i) ≡ some result
    → i < f.spawned
born_of_borrow c {f} i result h e = elim (Bool-cases (leb f.spawned i)) [
  | inl above ↦ absurd (ground (arith, h.fresh i))
  | inr below ↦ ground arith
]

Step-borrow :
    {f g : Flight} (i : ℕ) (result : Load)
    → Step f g
    → i < f.spawned
    → borrow (f.phase i) ≡ some result
    → borrow (g.phase i) ≡ some result
unfolding Flight.admit Flight.finish Flight.panic Flight.unlist Flight.send Flight.release
Step-borrow i result (call k) b e = ground arith
Step-borrow i result (finishes j outcome at) b e = ground arith
Step-borrow i result (panics j at) b e = ground arith
Step-borrow i result (unlists j r at) b e = ground arith
Step-borrow i result (sends j r at) b e = ground arith
Step-borrow i result (releases j r at) b e = ground arith

pub Reach-trans : {f g h : Flight} → Reach f g → Reach g h → Reach f h
Reach-trans r here = r
Reach-trans r (next q st) = next (Reach-trans r q) st

-- A result that a receiver of a load reads is the one that every receiver of the load reads ever
-- after, whatever the callers and tasks do meanwhile.
pub borrow_stable :
    (c : ℕ) {f g : Flight} (i : ℕ) (result : Load)
    → Reach (Flight.new c) f
    → Reach f g
    → borrow (f.phase i) ≡ some result
    → borrow (g.phase i) ≡ some result
borrow_stable c i result r here e = e
borrow_stable c i result r (next q st) e =
    let before = borrow_stable c i result r q e in
    Step-borrow i result st
      (born_of_borrow (max c 1) i result (Reach-IsConsistent c (Reach-trans r q)) before) before

-- A load that runs and whose work returns or is timed out can always be brought to its end by its
-- own task alone: its receivers then
-- read what the work returned, or the timeout's error, a later caller of the key cannot join it,
-- and its permit is back.
pub load_completes :
    {f : Flight} (i : ℕ) (outcome : Option Load)
    → f.phase i ≡ running
    → (g : Flight) × Reach f g
      × (borrow (g.phase i) ≡ some (Flight.bounded outcome))
      × (is_listed (g.phase i) ≡ false)
      × (Assoc.get (f.key i) g.calls ≡ none)
      × (g.permits ≡ f.permits + 1)
unfolding Flight.finish Flight.unlist Flight.send Flight.release
load_completes {f} i outcome at =
    let result = Flight.bounded outcome in
    let f1 = Flight.finish i outcome f in
    let f2 = Flight.unlist i result f1 in
    let f3 = Flight.send i result f2 in
    let r1 : Reach f f1 = next here (finishes i outcome at) in
    let r2 : Reach f f2 = next r1 (unlists i result (ground arith)) in
    let r3 : Reach f f3 = next r2 (sends i result (ground arith)) in
    (
      Flight.release i result f3,
      next r3 (releases i result (ground arith)),
      ground arith,
      ground arith,
      ground (arith, get-remove (f.key i) (f.key i) f.calls, str_eq_refl (f.key i)),
      refl,
    )
