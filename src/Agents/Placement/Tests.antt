-- ===== src/Agents/Placement/Tests.antt =====
-- Agents.Placement at concrete inputs: services that are what they require.
use runtime_rs.Base.{
  ℕ, ◌≡◌, ◌↔◌, refl, true, false, List, [], ◌∷◌, map, some, none, Str, str_eq, codes, Has,
}
use runtime_rs.Base.Assoc
use runtime_rs.Base.Sorting.{sort_onto}
use runtime_rs.Base.Decimal.{decimal}
use runtime_rs.Agents.Placement
use runtime_rs.Agents.Placement.{Requirements, Config, Group}
use runtime_rs.Agents.Placement.Groups.{group_of, is_needed}
use runtime_rs.Agents.Placement.Groups.Exact.{group_exact}
use runtime_rs.Agents.Placement.Ordering.{IsIncreasing}

program : Unit {0}
unfolding Placement.group Placement.shared Placement.with_port Assoc.get Assoc.insert Assoc.remove
    sort_onto str_eq decimal
program = tt

abbrev itself : Requirements → Requirements
itself r = r

abbrev config : Config ℕ
config = record {
  host = codes "h";
  port = 80;
  mux = some 7;
  read_timeout = none;
  write_timeout = none;
}

abbrev anywhere : Requirements
anywhere = record { addr = none; http = false }

abbrev apart : Requirements
apart = record { addr = some (codes "a:0"); http = true }

abbrev services : List Requirements
services = anywhere ∷ apart ∷ anywhere ∷ []

two_groups :
    Placement.group itself config services
    ≡ record {
      addr = codes "a:0";
      listen = codes "a:0";
      mux = none;
      services = apart ∷ [];
      http = true;
      owned = true;
    }
      ∷ record {
        addr = codes "h:80";
        listen = codes "h:80";
        mux = some 7;
        services = anywhere ∷ anywhere ∷ [];
        http = false;
        owned = false;
      }
      ∷ []
unfolding program
two_groups = refl

group_exact_example :
    (addrs : List Str) × (Placement.group itself config services
      ≡ map (group_of itself config services) addrs)
    × IsIncreasing addrs
    × ((a : Str) → Has a addrs ↔ (is_needed itself config a services ≡ true))
group_exact_example = group_exact itself config services
