-- ===== src/Agents/Placement/Ports.antt =====
-- The address that a service is told once its listener is bound.
use runtime_rs.Base.{
  ℕ, ◌≡◌, refl, if◌then◌else◌, [], ◌∷◌, ◌++◌, some, none, Str, str_eq, codes, Lacks, arith,
}
use runtime_rs.Base.Decimal.{decimal}
use runtime_rs.Agents.Placement
use runtime_rs.Agents.Placement.{rsplit_once}

rsplit_once-Lacks : (c : ℕ) (s : Str) → Lacks c s → rsplit_once c s ≡ none
unfolding rsplit_once
rsplit_once-Lacks c [] h = refl
rsplit_once-Lacks c (a ∷ s) (n, h) = ground (arith, rsplit_once-Lacks c s)

rsplit_once-join : (c : ℕ) (x y : Str) → Lacks c y → rsplit_once c (x ++ (c ∷ y)) ≡ some (x, y)
unfolding rsplit_once
rsplit_once-join c [] y h = ground (arith, rsplit_once-Lacks c y)
rsplit_once-join c (a ∷ x) y h = ground (arith, rsplit_once-join c x y)

-- Of an address the part after the last colon is replaced by the port that was bound, if it is "0",
-- and kept otherwise; the host, colons of its own included, stays as it was configured.
pub with_port_exact :
    (host asked : Str) (port : ℕ)
    → Lacks 58 asked
    → Placement.with_port (host ++ (58 ∷ asked)) port
      ≡ host ++ (58 ∷ (if str_eq asked (codes "0") then decimal port else asked))
unfolding Placement.with_port
with_port_exact host asked port h = ground (arith, rsplit_once-join 58 host asked)
