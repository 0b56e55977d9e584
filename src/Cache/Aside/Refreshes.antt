-- ===== src/Cache/Aside/Refreshes.antt =====
-- The ids that are marked for a background refresh, and the tasks that will unmark them.
use runtime_rs.Base.{
  ℕ, ◌+◌, ◌-◌, ◌≡◌, ◌≢◌, refl, Bool, false, not, ◌&&◌, if◌then◌else◌, List, [], ◌∷◌, Str, any,
  str_eq, str_eq_iff, arith,
}
use runtime_rs.Cache.Aside.{refresh_in_background, drop_refresh_claim}

-- `running` and `leaving` count, for each id, the refreshes under way, whose claim unmarks the id when
-- it is dropped, and the detached cleanups after a refused admission.
pub record Activity : Type 0 where
  pub refreshing : List Str
  pub running : Str → ℕ
  pub leaving : Str → ℕ

abbrev pub marked : Str → List Str → Bool
marked id refreshing = any (str_eq id) refreshing

abbrev pub raise : Str → Bool → (Str → ℕ) → Str → ℕ
raise id more count j = if more && str_eq id j then count j + 1 else count j

abbrev pub lower : Str → (Str → ℕ) → Str → ℕ
lower id count j = if str_eq id j then count j - 1 else count j

abbrev pub ask : Bool → Bool → Str → Activity → Activity
ask contended admitted id a =
    let entered = not contended && not (marked id a.refreshing) in
    let answer = refresh_in_background contended admitted id a.refreshing in
    record {
      refreshing = answer.1;
      running = raise id answer.0 a.running;
      leaving = raise id (entered && not answer.0) a.leaving;
    }

pub data Step : Activity → Activity → Type 0 where
  asked :
      (contended admitted : Bool) (id : Str) (a : Activity) → Step a (ask contended admitted id a)
  finished :
      (id : Str) (a : Activity)
      → a.running id ≢ 0
      → Step a (record a {
        refreshing = drop_refresh_claim id a.refreshing;
        running = lower id a.running;
      })
  cleaned :
      (id : Str) (a : Activity)
      → a.leaving id ≢ 0
      → Step a (record a {
        refreshing = drop_refresh_claim id a.refreshing;
        leaving = lower id a.leaving;
      })

pub data Reachable : Activity → Type 0 where
  begun : Reachable (record { refreshing = []; running = λ id. 0; leaving = λ id. 0 })
  stepped : {a b : Activity} → Reachable a → Step a b → Reachable b

marked-drop :
    (id j : Str) (ids : List Str)
    → marked j (drop_refresh_claim id ids) ≡ (if str_eq id j then false else marked j ids)
unfolding drop_refresh_claim
marked-drop id j [] = ground arith
marked-drop id j (i ∷ ids) =
    ground (arith, marked-drop id j ids, str_eq_iff id i, str_eq_iff j i, str_eq_iff id j)

abbrev IsAccounted : Activity → Str → Type 0
IsAccounted a j = a.running j + a.leaving j ≡ (if marked j a.refreshing then 1 else 0)

step-IsAccounted :
    {a b : Activity} → Step a b → ((j : Str) → IsAccounted a j) → (j : Str) → IsAccounted b j
unfolding refresh_in_background
step-IsAccounted (asked contended admitted id a) before j =
    ground (arith, before j, before id, str_eq_iff id j, str_eq_iff j id)
step-IsAccounted (finished id a some_task) before j =
    ground (arith, before j, before id, str_eq_iff id j, some_task, marked-drop id j a.refreshing)
step-IsAccounted (cleaned id a some_task) before j =
    ground (arith, before j, before id, str_eq_iff id j, some_task, marked-drop id j a.refreshing)

-- In whatever order readers ask for background refreshes, contended or not, admitted or not, and tasks
-- end, an id that is marked has exactly one refresh or cleanup under way that will unmark it, and an id
-- that is not has none: no id has two refreshes, and none stays marked for ever.
pub refreshes_accounted :
    (a : Activity) (j : Str)
    → Reachable a
    → a.running j + a.leaving j ≡ (if marked j a.refreshing then 1 else 0)
refreshes_accounted _ j begun = refl
refreshes_accounted b j (stepped {a = a} earlier step) =
    step-IsAccounted step (λ i. refreshes_accounted a i earlier) j
