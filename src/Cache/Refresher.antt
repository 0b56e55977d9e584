-- ===== src/Cache/Refresher.antt =====
-- cache/src/strategies/refresher.rs: bounded background work that can be drained. Each function
-- is one section that runs with no other in between.
pub mod Drain
mod Tests
use runtime_rs.Base.{ℕ, ◌+◌, ◌-◌, ◌<◌, ◌≡◌, ◌==◌, ◌||◌, if◌then◌else◌, max, Bool, true, false}

-- `working` tasks have been admitted and have not run their cleanup; `leaving` tasks have counted
-- themselves out and still hold their permit. `slots` are the permits that are left.
pub record Refresher : Type 0 where
  pub is_closed : Bool
  pub running : ℕ
  pub slots : ℕ
  pub working : ℕ
  pub leaving : ℕ

pub new : ℕ → Refresher
new limit = record { is_closed = false; running = 0; slots = max limit 1; working = 0; leaving = 0 }

-- `contended`: another task holds the state's lock, so that `try_lock` fails.
pub go : Bool → Refresher → Bool × Refresher
go contended r =
    if contended || (r.is_closed || (r.slots == 0))
    then (false, r)
    else (true, record r { running = r.running + 1; slots = r.slots - 1; working = r.working + 1 })

-- The cleanup of a task: `running` falls under the lock, and then the permit is dropped.
pub count_out : Refresher → Refresher
count_out r = record r { running = r.running - 1; working = r.working - 1; leaving = r.leaving + 1 }

-- A panic of the work unwinds the task: the permit is dropped, `running` is not touched.
pub panic : Refresher → Refresher
panic r = record r { slots = r.slots + 1; working = r.working - 1 }

pub drop_permit : Refresher → Refresher
drop_permit r = record r { slots = r.slots + 1; leaving = r.leaving - 1 }

-- The first section of `drain`, and what it tests under the lock, there and in its loop: `true`
-- lets `drain` return `Ok`.
pub close : Refresher → Bool × Refresher
close r = (r.running == 0, record r { is_closed = true })

pub is_idle : Refresher → Bool
is_idle r = r.running == 0

pub data Step (r : Refresher) : Refresher → Type 0 where
  goes : (contended : Bool) → Step r (go contended r).1
  counts_out : 0 < r.working → Step r (count_out r)
  panics : 0 < r.working → Step r (panic r)
  drops_permit : 0 < r.leaving → Step r (drop_permit r)
  drains : Step r (close r).1

pub data Reach (r : Refresher) : Refresher → Type 0 where
  here : Reach r r
  next : {s t : Refresher} → Reach r s → Step s t → Reach r t
