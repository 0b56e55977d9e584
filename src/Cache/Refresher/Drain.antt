-- ===== src/Cache/Refresher/Drain.antt =====
-- Background work stays within its budget, and a drain means that it is over.
use runtime_rs.Base.{
  ℕ, ◌+◌, ◌≤◌, ◌<◌, ◌≡◌, max, Bool, true, false, arith, refl, sym, ◌∙◌, zero, suc, ◌↔◌,
}
use runtime_rs.Cache.Refresher
use runtime_rs.Cache.Refresher.{
  Refresher, Step, goes, counts_out, panics, drops_permit, drains, Reach, here, next,
}

pub record IsBalanced (limit : ℕ) (r : Refresher) : Type 0 where
  pub counted : r.working ≤ r.running
  pub budget : r.slots + r.working + r.leaving ≡ limit

Step-IsBalanced : {limit : ℕ} {r s : Refresher} → Step r s → IsBalanced limit r → IsBalanced limit s
unfolding Refresher.go Refresher.panic Refresher.count_out Refresher.drop_permit Refresher.close
Step-IsBalanced (goes contended) h = ground arith
Step-IsBalanced (counts_out some_work) h = ground arith
Step-IsBalanced (panics some_work) h = ground arith
Step-IsBalanced (drops_permit some_left) h = ground arith
Step-IsBalanced drains h = ground arith

Reach-IsBalanced :
    (limit : ℕ) {r : Refresher} → Reach (Refresher.new limit) r → IsBalanced (max limit 1) r
unfolding Refresher.new
Reach-IsBalanced limit here = record { counted = omega arith; budget = omega arith }
Reach-IsBalanced limit (next q st) = Step-IsBalanced st (Reach-IsBalanced limit q)

-- In every reachable state the counter is at least the number of the tasks at work, these are no
-- more than the limit, or one, and a `go` is admitted exactly where the lock is free, the refresher
-- is open and a slot is left.
pub within_budget :
    (limit : ℕ) {r : Refresher} (contended : Bool)
    → Reach (Refresher.new limit) r
    → (r.working ≤ r.running)
      × (r.working ≤ max limit 1)
      × (((Refresher.go contended r).0 ≡ true)
          ↔ ((contended ≡ false) × (r.is_closed ≡ false) × (r.working + r.leaving < max limit 1)))
unfolding Refresher.go
within_budget limit contended q =
    let h = Reach-IsBalanced limit q in (h.counted, omega arith, ground arith)

Step-closed :
    {r s : Refresher}
    → Step r s
    → r.is_closed ≡ true
    → r.running ≡ 0
    → r.working ≡ 0
    → (s.is_closed ≡ true) × (s.running ≡ 0) × (s.working ≡ 0)
unfolding Refresher.go Refresher.panic Refresher.count_out Refresher.drop_permit Refresher.close
Step-closed (goes contended) c e w = ground arith
Step-closed (counts_out some_work) c e w = absurd (omega arith)
Step-closed (panics some_work) c e w = absurd (omega arith)
Step-closed (drops_permit some_left) c e w = ground arith
Step-closed drains c e w = ground arith

-- Once a refresher is closed and seen idle, which is when `drain` returns `Ok`, no task is at work
-- and none ever will be, whatever follows.
pub drained_for_good :
    (limit : ℕ) {r s : Refresher}
    → Reach (Refresher.new limit) r
    → r.is_closed ≡ true
    → Refresher.is_idle r ≡ true
    → Reach r s
    → (s.is_closed ≡ true) × (s.running ≡ 0) × (s.working ≡ 0)
unfolding Refresher.is_idle
drained_for_good limit q c idle here =
    let h = Reach-IsBalanced limit q in (c, ground arith, ground arith)
drained_for_good limit q c idle (next p st) =
    let h = drained_for_good limit q c idle p in Step-closed st h.0 h.1 h.2

after : {r s t : Refresher} → Step r s → Reach s t → Reach r t
after st here = next here st
after st (next p st') = next (after st p) st'

empties :
    (n : ℕ) (r : Refresher)
    → r.running ≡ n
    → r.working ≡ n
    → (s : Refresher) × Reach r s × (Refresher.is_idle s ≡ true) × (s.is_closed ≡ r.is_closed)
unfolding Refresher.is_idle Refresher.count_out
empties zero r e w = (r, here, ground arith, refl)
empties (suc n) r e w =
    let (s, p, idle, same) = empties n (Refresher.count_out r) (omega arith) (omega arith) in
    (s, after (counts_out (omega arith)) p, idle, same)

-- From every state that is closed and where no work has panicked, that is, the counter is the
-- number of the tasks at work, these can end the wait by themselves: once each has counted itself
-- out, `drain` finds the refresher closed and idle.
pub drain_ends :
    {r : Refresher}
    → r.running ≡ r.working
    → r.is_closed ≡ true
    → (s : Refresher) × Reach r s × (Refresher.is_idle s ≡ true) × (s.is_closed ≡ true)
drain_ends {r} e c =
    let (s, p, idle, same) = empties r.running r refl (sym e) in (s, p, idle, same ∙ c)

Step-lost :
    {limit : ℕ} {r s : Refresher}
    → Step r s
    → IsBalanced limit r
    → r.working < r.running
    → s.working < s.running
unfolding Refresher.go Refresher.panic Refresher.count_out Refresher.drop_permit Refresher.close
Step-lost (goes contended) h e = ground arith
Step-lost (counts_out some_work) h e = ground arith
Step-lost (panics some_work) h e = ground arith
Step-lost (drops_permit some_left) h e = ground arith
Step-lost drains h e = ground arith

panicked-lost :
    {limit : ℕ} {r : Refresher}
    → 0 < r.working
    → IsBalanced limit r
    → (Refresher.panic r).working < (Refresher.panic r).running
unfolding Refresher.panic
panicked-lost some_work h = ground arith

Reach-trans : {r s t : Refresher} → Reach r s → Reach s t → Reach r t
Reach-trans q here = q
Reach-trans q (next p st) = next (Reach-trans q p) st

lost_for_good :
    (limit : ℕ) {r s : Refresher}
    → Reach (Refresher.new limit) r
    → r.working < r.running
    → Reach r s
    → s.working < s.running
lost_for_good limit q e here = e
lost_for_good limit q e (next p st) =
    Step-lost st (Reach-IsBalanced limit (Reach-trans q p)) (lost_for_good limit q e p)

-- Once the work of a task has panicked, the refresher is never idle again, whatever follows: no
-- `drain` returns `Ok` any more.
pub panic_blocks_drain :
    (limit : ℕ) {r s : Refresher}
    → Reach (Refresher.new limit) r
    → 0 < r.working
    → Reach (Refresher.panic r) s
    → Refresher.is_idle s ≡ false
unfolding Refresher.is_idle
panic_blocks_drain limit q some_work p = ground (
  arith,
  lost_for_good limit (next q (panics some_work))
      (panicked-lost some_work (Reach-IsBalanced limit q)) p,
)
