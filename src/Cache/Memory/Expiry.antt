-- ===== src/Cache/Memory/Expiry.antt =====
-- Where the clock does not run backwards, what has expired stays expired.
use runtime_rs.Base.{subst, ℕ, ◌≤◌, ◌≡◌, refl, ◌∙◌, Bool, false, Str, arith, List, [], ◌∷◌, sym, ap}
use runtime_rs.Base.Assoc
use runtime_rs.Cache.Outcome.{Outcome, ok, err, panic}
use runtime_rs.Cache.Memory
use runtime_rs.Cache.Memory.{Entry, World}
use runtime_rs.Cache.Memory.View.{alive, view, present, occupied}
use runtime_rs.Cache.Memory.Reads.{exists-view, exists_each}

abbrev pub IsMonotone : World → Type 0
IsMonotone w = (m n : ℕ) → m ≤ n → w.clock m ≤ w.clock n

pub stays_expired :
    (t t' : ℕ) (w : World) (k : Str)
    → t ≤ t'
    → occupied (view t w k) ≡ false
    → occupied (view t' w k) ≡ false
stays_expired t t' w k late e = ground arith

-- A later state that has the entries and the clock of an earlier one.
pub record IsAfter (w w' : World) : Type 0 where
  pub same_map : w'.map ≡ w.map
  pub same_clock : w'.clock ≡ w.clock
  pub later : w.reads ≤ w'.reads

pub IsAfter-present : (w w' : World) → IsMonotone w → IsAfter w w' → present w ≤ present w'
IsAfter-present w w' mono a =
    subst (λ c. present w ≤ c w'.reads) (sym a.same_clock) (mono w.reads w'.reads a.later)

exists-IsAfter : (k : Str) (w : World) → IsAfter w (Memory.exists k w).1
unfolding Memory.exists
exists-IsAfter k w = record {
  same_map = ground arith;
  same_clock = ground arith;
  later = ground arith;
}

-- The answer is put before the others, if these come.
abbrev answered : Bool → Outcome (List Bool) → Outcome (List Bool)
answered b (ok answers) = ok (b ∷ answers)
answered b (err e) = err e
answered b panic = panic

exists_each-step :
    (k : Str) (ks : List Str) (w : World)
    → exists_each (k ∷ ks) w ≡ (
      answered (occupied (view (present w) w k)) (exists_each ks (Memory.exists k w).1).0,
      (exists_each ks (Memory.exists k w).1).1,
    )
exists_each-step k ks w = ground (arith, exists-view k w)

IsAfter-trans : {u v w : World} → IsAfter u v → IsAfter v w → IsAfter u w
IsAfter-trans a b = record {
  same_map = b.same_map ∙ a.same_map;
  same_clock = b.same_clock ∙ a.same_clock;
  later = omega (arith, a.later, b.later);
}

pub exists_each-IsAfter : (ks : List Str) (w : World) → IsAfter w (exists_each ks w).1
exists_each-IsAfter [] w = record { same_map = refl; same_clock = refl; later = omega arith }
exists_each-IsAfter (k ∷ ks) w =
    subst (λ r. IsAfter w r.1) (sym (exists_each-step k ks w))
      (IsAfter-trans (exists-IsAfter k w) (exists_each-IsAfter ks (Memory.exists k w).1))

-- A negative answer means that the entry is not live at the time t or later.
abbrev pub Tells : ℕ → World → List Str → Outcome (List Bool) → Type 0
Tells t w (k ∷ ks) (ok (found ∷ answers)) =
    (found ≡ false → occupied (view t w k) ≡ false) × Tells t w ks (ok answers)
Tells t w _ _ = Unit

Tells-answered :
    (t : ℕ) (w : World) (k : Str) (ks : List Str) (b : Bool) (r : Outcome (List Bool))
    → (b ≡ false → occupied (view t w k) ≡ false)
    → Tells t w ks r
    → Tells t w (k ∷ ks) (answered b r)
Tells-answered t w k ks b (ok answers) h hs = (h, hs)
Tells-answered t w k ks b (err e) h hs = tt
Tells-answered t w k ks b panic h hs = tt

Tells-map :
    (t : ℕ) (w w' : World) (ks : List Str) (r : Outcome (List Bool))
    → w'.map ≡ w.map
    → Tells t w' ks r
    → Tells t w ks r
Tells-map t w w' (k ∷ ks) (ok (found ∷ answers)) e h = (
  λ f. ap (λ m. occupied (alive t (Assoc.get k m))) (sym e) ∙ h.0 f,
  Tells-map t w w' ks (ok answers) e h.1,
)
Tells-map t w w' [] r e h = tt
Tells-map t w w' (k ∷ ks) (ok []) e h = tt
Tells-map t w w' (k ∷ ks) (err x) e h = tt
Tells-map t w w' (k ∷ ks) panic e h = tt

-- The answers of a series of tests hold from the time on at which the next reading would be made.
pub exists_each-Tells :
    (t : ℕ) (ks : List Str) (w : World)
    → IsMonotone w
    → present (exists_each ks w).1 ≤ t
    → Tells t w ks (exists_each ks w).0
exists_each-Tells t [] w mono late = tt
exists_each-Tells t (k ∷ ks) w mono late =
    let w1 = (Memory.exists k w).1 in
    let first = exists-IsAfter k w in
    let all = exists_each-IsAfter (k ∷ ks) w in
    let late1 : present (exists_each ks w1).1 ≤ t =
      subst (λ r. present r.1 ≤ t) (exists_each-step k ks w) late in
    subst (λ r. Tells t w (k ∷ ks) r.0) (sym (exists_each-step k ks w))
      (Tells-answered t w k ks _ _
        (stays_expired (present w) t w k
          (omega (arith, late, IsAfter-present w (exists_each (k ∷ ks) w).1 mono all)))
        (Tells-map t w w1 ks _ first.same_map (
          exists_each-Tells t ks w1
            (subst (λ c. (m n : ℕ) → m ≤ n → c m ≤ c n) (sym first.same_clock) mono) late1)))
