-- ===== src/Cache/Memory/View.antt =====
-- What a client of the memory driver can see: the entries that are live at a given time.
use runtime_rs.Base.{
  ℕ, ◌+◌, ◌<◌, ◌≡◌, ◌⊎◌, ◌==◌, leb, if◌then◌else◌, Bool, true, false, Option, none, some, Str,
  Bytes, arith, str_eq,
}
use runtime_rs.Base.Assoc
use runtime_rs.Base.Assoc.{get-insert}
use runtime_rs.Cache.Outcome.{Outcome, ok, err, not_found}
use runtime_rs.Cache.Memory.{Entry, World}

abbrev pub alive : ℕ → Option Entry → Option Entry
alive t none = none
alive t (some e) = elim e.expires_at [
  | none ↦ some e
  | some expiry ↦ if leb expiry t then none else some e
]

abbrev pub view : ℕ → World → Str → Option Entry
view t w k = alive t (Assoc.get k w.map)

-- The time of the next reading of the clock.
abbrev pub present : World → ℕ
present w = w.clock w.reads

abbrev pub answer : Option Entry → Outcome Bytes
answer none = err not_found
answer (some e) = ok e.value

abbrev pub occupied : Option Entry → Bool
occupied none = false
occupied (some e) = true

abbrev pub deadline : World → ℕ → Option ℕ
deadline w ttl = if ttl == 0 then none else some (present w + ttl)

-- The lease ends at a time that the platform's clock can hold.
abbrev pub Fits : World → ℕ → Type 0
Fits w ttl = (ttl ≡ 0) ⊎ (present w + ttl < w.horizon)

-- `add` and `replace` look at the entry after they have read the clock for the new lease.
abbrev pub check_time : World → ℕ → ℕ
check_time w ttl = w.clock (if ttl == 0 then w.reads else w.reads + 1)

abbrev pub leased : World → Bytes → ℕ → Entry
leased w v ttl = record { value = v; expires_at = deadline w ttl }

-- Where an entry is stored, it alone changes what is seen, at any time.
pub view-store :
    (t : ℕ) (w w' : World) (k j : Str) (e : Entry)
    → w'.map ≡ Assoc.insert k e w.map
    → view t w' j ≡ (if str_eq k j then alive t (some e) else view t w j)
view-store t w w' k j e h = rw h (rw get-insert (ground arith))
