-- ===== src/Cache/Flight.antt =====
-- cache/src/strategies/flight.rs: single-flight loads. A load is numbered in the order of the
-- spawns; its number stands for the watch channel, and its phase for where its task is. Each
-- function is one section that runs with no other in between.
pub mod Invariant
pub mod Progress
pub mod Panics
mod Tests
use runtime_rs.Base.{
  ℕ, ◌+◌, ◌-◌, ◌==◌, if◌then◌else◌, max, Bool, true, false, Option, none, some, Str, Bytes, codes,
  List, [], ◌≡◌,
}
use runtime_rs.Base.Assoc
use runtime_rs.Base.Assoc.{Map}
use runtime_rs.Cache.Outcome.{internal, CacheError, overloaded}

-- `SharedResult`
pub data Load : Type 0 where
  loaded : Bytes → Load
  failed : CacheError → Load

pub data Phase : Type 0 where
  -- not spawned yet
  unborn : Phase
  -- inside `timeout(timeout, work())`
  running : Phase
  -- ended by a panic of the work: nothing of the task's cleanup has run but the drop of its values
  dead : Phase
  -- the result is there, the key is still in the map
  finished : Load → Phase
  -- the key is out of the map, the result is not sent
  removed : Load → Phase
  -- the result is sent, the permit is still held
  sent : Load → Phase
  -- the permit is returned; the channel keeps the result
  closed : Load → Phase

pub record Flight : Type 0 where
  pub calls : Map ℕ
  pub permits : ℕ
  pub spawned : ℕ
  pub phase : ℕ → Phase
  pub key : ℕ → Str

abbrev pub update {ℓ} : {A : Type ℓ} → (ℕ → A) → ℕ → A → ℕ → A
update f i a j = if i == j then a else f j

pub new : ℕ → Flight
new concurrency = record {
  calls = [];
  permits = max concurrency 1;
  spawned = 0;
  phase = λ _. unborn;
  key = λ _. [];
}

-- What the locked block of `run` gives the caller: the receiver of a load, or `Overloaded`.
pub data Admission : Type 0 where
  joined started : ℕ → Admission
  refused : CacheError → Admission

start : Str → Flight → Admission × Flight
start k f = if f.permits == 0 then (refused overloaded, f) else (
  started f.spawned,
  record {
    calls = Assoc.insert k f.spawned f.calls;
    permits = f.permits - 1;
    spawned = f.spawned + 1;
    phase = update f.phase f.spawned running;
    key = update f.key f.spawned k;
  },
)

pub admit : Str → Flight → Admission × Flight
unfolding start
admit k f = elim (Assoc.get k f.calls) [ some i ↦ (joined i, f) | none ↦ start k f ]

-- `match tokio::time::timeout(..)`
pub bounded : Option Load → Load
bounded (some result) = result
bounded none = failed (internal (codes "cache load timed out"))

pub finish : ℕ → Option Load → Flight → Flight
unfolding bounded
finish i outcome f = record f { phase = update f.phase i (finished (bounded outcome)) }

-- A panic of the work unwinds the task: the permit and the sender are dropped, the key stays.
pub panic : ℕ → Flight → Flight
panic i f = record f { permits = f.permits + 1; phase = update f.phase i dead }

pub unlist : ℕ → Load → Flight → Flight
unlist i result f = record f {
  calls = Assoc.remove (f.key i) f.calls;
  phase = update f.phase i (removed result);
}

pub send : ℕ → Load → Flight → Flight
send i result f = record f { phase = update f.phase i (sent result) }

pub release : ℕ → Load → Flight → Flight
release i result f = record f { permits = f.permits + 1; phase = update f.phase i (closed result) }

-- `receiver.borrow().clone()`
abbrev pub borrow : Phase → Option Load
borrow (sent result) = some result
borrow (closed result) = some result
borrow _ = none

-- One step of a caller or of a task.
pub data Step (f : Flight) : Flight → Type 0 where
  call : (k : Str) → Step f (admit k f).1
  finishes : (i : ℕ) (outcome : Option Load) → f.phase i ≡ running → Step f (finish i outcome f)
  panics : (i : ℕ) → f.phase i ≡ running → Step f (panic i f)
  unlists : (i : ℕ) (result : Load) → f.phase i ≡ finished result → Step f (unlist i result f)
  sends : (i : ℕ) (result : Load) → f.phase i ≡ removed result → Step f (send i result f)
  releases : (i : ℕ) (result : Load) → f.phase i ≡ sent result → Step f (release i result f)

pub data Reach (f : Flight) : Flight → Type 0 where
  here : Reach f f
  next : {g h : Flight} → Reach f g → Step g h → Reach f h
