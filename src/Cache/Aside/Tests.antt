-- ===== src/Cache/Aside/Tests.antt =====
-- The Aside strategy at concrete inputs.
use runtime_rs.Base.{
  ℕ, not, ap, ◌==◌, ◌^◌, ◌+◌, ◌≡◌, refl, inr, if◌then◌else◌, Bool, true, false, [], ◌∷◌, Option,
  none, some, Str, Bytes, codes, str_eq, arith,
}
use runtime_rs.Base.Assoc
use runtime_rs.Cache.Outcome.{ok, err, not_found}
use runtime_rs.Cache.Keyspace
use runtime_rs.Cache.Policy.{Options, Freshness}
use runtime_rs.Cache.Memory
use runtime_rs.Cache.Memory.{World}
use runtime_rs.Cache.Memory.View.{present, view}
use runtime_rs.Cache.Aside
use runtime_rs.Cache.Aside.{AsideImpl}
use runtime_rs.Cache.Aside.Envelope.{
  ℤ, pos, negsuc, Envelope, Coded, coded, refused, Codec, Platform, is_past, pack_value, pack_void,
  fresh_until_millis, unix_millis,
}
use runtime_rs.Cache.Aside.Deadline.{IsFaithful}
use runtime_rs.Cache.Aside.OnMemory.{on_memory}
use runtime_rs.Cache.Aside.Lock.{load_frees_lock}
use runtime_rs.Cache.Aside.Served.{loaded_is_served, absence_is_served}
use runtime_rs.Cache.Aside.Refreshes.{
  Activity, begun, stepped, asked, ask, marked, refreshes_accounted,
}

-- A codec that writes the parts of an envelope one after the other.
abbrev flag : Bool → ℕ
flag false = 0
flag true = 1

abbrev write_fresh : ℤ → Bytes → Bytes
write_fresh (pos n) rest = 0 ∷ n ∷ rest
write_fresh (negsuc n) rest = 1 ∷ n ∷ rest

abbrev write_value : Option Bytes → Bytes
write_value none = []
write_value (some json) = 0 ∷ json

abbrev read_flag : ℕ → Bool
read_flag n = not (n == 0)

abbrev read_fresh : ℕ → ℕ → ℤ
read_fresh sign n = if sign == 0 then pos n else negsuc n

abbrev read_value : Bytes → Option Bytes
read_value [] = none
read_value (_ ∷ json) = some json

abbrev from_slice : Bytes → Coded Envelope
from_slice (void ∷ sign ∷ n ∷ rest) =
    coded (record { value = read_value rest; fresh = read_fresh sign n; void = read_flag void })
from_slice _ = refused []

abbrev codec : Codec
codec = record {
  raw = coded;
  to_vec = λ e. coded (flag e.void ∷ write_fresh e.fresh (write_value e.value));
  from_slice = from_slice;
}

codec-IsFaithful : IsFaithful codec
codec-IsFaithful e frame written = ground (arith, written)

abbrev platform : Platform
platform = record { epoch = 1_000; limit = 10 ^ 30; predates = λ _. []; out_of_range = λ _. [] }

abbrev empty : World × ℕ
empty = (record { clock = λ i. 100 + i; reads = 0; horizon = 10_000; map = [] }, 0)

-- The loader counts its calls and answers with its argument, and knows of no "gone".
abbrev d : AsideImpl (World × ℕ)
d = record {
  driver = Aside.OnMemory.driver;
  fenced = none;
  keyspace = record { base = codes "cache:" };
  outside = record {
    now = λ s. (2_000_000_000, s);
    token = λ s. (7 ∷ [], s);
    loader = λ id s. (if str_eq id (codes "gone") then err not_found else ok id, (s.0, s.1 + 1));
  };
  default_ttl = 60;
  default_stale = 0;
  require_ttl = true;
  negative_ttl = 5;
  lock_lease = 30;
}

abbrev plain : Options
plain = record { id = none; ttl = none; stale = none; indexes = none; permanent = false }

abbrev id : Str
id = codes "u1"

abbrev loaded : World × ℕ
loaded = (Aside.load_and_store codec platform (on_memory d) id plain empty).1

load_frees_lock_example :
    view (present loaded.0) loaded.0 (Keyspace.aside_lock d.keyspace id) ≡ none
unfolding Assoc.get
load_frees_lock_example =
    load_frees_lock codec platform d id (λ s. ground arith) (λ s. ground arith) (λ s. ground arith)
      plain empty (present loaded.0) (λ n m h. ground (arith, h)) refl (ground arith)

abbrev lease : Freshness
lease = record { fresh_for = 40; hard_ttl = 60 }

-- The entries after a load, at a time when its lease lasts.
abbrev soon : Str → World × ℕ
soon name =
    let stored = (Aside.load_and_store_claimed codec platform (on_memory d) name lease empty).1 in
    (record empty.0 { map = stored.0.map; reads = 3 }, 0)

abbrev frame : Bytes
frame = 0 ∷ 0 ∷ 1_999 ∷ 0 ∷ id

loaded_is_served_example :
    (Aside.get_or_load codec platform false true (on_memory d) id plain [] (soon id)).0 ≡ ok id
unfolding fresh_until_millis unix_millis pack_value is_past str_eq
loaded_is_served_example =
    ap (λ r. r.0)
      ((loaded_is_served codec platform codec-IsFaithful d id lease id id frame 1_999 1_999 empty
        (soon id) plain false true [] refl refl refl refl (inr (ground arith)) refl
        (inr (ground arith)) refl).1)

abbrev gone : Str
gone = codes "gone"

absence_is_served_example :
    Aside.get_or_load codec platform false true (on_memory d) gone plain [] (soon gone) ≡ (
      err not_found,
      (
        (false, []),
        (d.outside.now
            (Aside.OnMemory.beside
              (Memory.get (Keyspace.aside_entry d.keyspace gone))
              (soon gone)).1).1,
      ),
    )
unfolding unix_millis pack_void str_eq
absence_is_served_example =
    (absence_is_served codec platform codec-IsFaithful d gone lease (1 ∷ 0 ∷ 0 ∷ []) 1_999 empty
      (soon gone) plain false true [] refl refl refl (inr (ground arith)) refl (ground arith)
      refl).1

abbrev asking : Activity
asking = ask false true id (record { refreshing = []; running = λ id. 0; leaving = λ id. 0 })

refreshes_accounted_example :
    asking.running id + asking.leaving id ≡ (if marked id asking.refreshing then 1 else 0)
refreshes_accounted_example = refreshes_accounted asking id (stepped begun (asked false true id _))
