-- ===== src/Agents/Combine/Server/Tests.antt =====
-- Agents.Combine at concrete inputs: two services, each with a tool and a resource.
use runtime_rs.Base.{
  Distinct, ℕ, zero, suc, str_eq, ◌≡◌, ◌↔◌, refl, inl, none, some, List, [], ◌∷◌, ◌++◌, Str, codes,
}
use runtime_rs.Base.Assoc
use runtime_rs.Agents.Combine.{
  Inventory, Request, Page, Member, Capabilities, ok, err, Exec, try, pure, raise, check_collisions,
  get_elem?,
}
use runtime_rs.Agents.Combine
use runtime_rs.Agents.Combine.Declared.{all_declared, check_exact}
use runtime_rs.Agents.Combine.Server
use runtime_rs.Agents.Combine.Server.{CombinedServer, CombinedHandler, Factory}
use runtime_rs.Agents.Combine.Server.Calls.{tool_reaches_owner}
use runtime_rs.Agents.Combine.Server.Lists.{
  over, asked, list_tools-first_pages, empty, complete-first_offer,
}

program : Unit {0}
unfolding Combine.check_collisions Combine.check_names Combine.route Combine.extend
    Combine.merge_capabilities Server.new Server.session Server.list_tools Assoc.get Assoc.insert
    str_eq
program = tt

abbrev Service : Type 0
Service = Member ℕ Str ℕ ℕ ℕ Str ℕ

abbrev advertised : Capabilities ℕ
advertised = record {
  tools = some 1;
  prompts = none;
  resources = some 1;
  completions = none;
  logging = none;
}

-- A service answers with its number, and offers it as a completion if it is not zero.
abbrev offers : ℕ → List ℕ
offers zero = []
offers (suc n) = suc n ∷ []

abbrev service : ℕ → Str → Str → Service
service n tool uri = record {
  capabilities = advertised;
  call_tool = λ q. pure n;
  get_prompt = λ q. raise (codes "no prompt");
  read_resource = λ q. pure n;
  complete = λ q. pure (offers n);
  list_tools = λ cursor. pure (record { items = tool ∷ []; next_cursor = some (codes "more") });
  list_prompts = λ cursor. raise (codes "no prompts");
  list_resources = λ cursor. pure (record { items = uri ∷ []; next_cursor = none });
  list_resource_templates = λ cursor. pure (record { items = []; next_cursor = none });
}

abbrev read : Service → Exec ℕ Str Inventory
read m =
    try (m.list_tools none) (λ e. e)
      λ tools.
        try (m.list_resources none) (λ e. e)
          λ resources. pure (record {
            tools = tools.items;
            prompts = [];
            resources = resources.items;
            resource_templates = [];
          })

abbrev quote : Str → Str
quote s = 34 ∷ (s ++ 34 ∷ [])

unquoted : (n m : Str) → n ++ 34 ∷ [] ≡ m ++ 34 ∷ [] → n ≡ m
unquoted [] [] e = refl
unquoted [] (y ∷ []) e = cc
unquoted [] (y ∷ z ∷ m) e = cc
unquoted (x ∷ []) [] e = cc
unquoted (x ∷ z ∷ n) [] e = cc
unquoted (x ∷ n) (y ∷ m) e = let rest = unquoted n m (cc e) in cc

abbrev zeroth : Service
zeroth = service 0 (codes "add") (codes "a:x")

abbrev first : Service
first = service 1 (codes "sub") (codes "b:x")

abbrev services : List (Factory ℕ Str ℕ ℕ ℕ Str ℕ)
services = pure zeroth ∷ pure first ∷ []

abbrev inventory_of : Str → Str → Inventory
inventory_of tool uri = record {
  tools = tool ∷ [];
  prompts = [];
  resources = uri ∷ [];
  resource_templates = [];
}

abbrev inventories : List Inventory
inventories =
    inventory_of (codes "add") (codes "a:x") ∷ inventory_of (codes "sub") (codes "b:x") ∷ []

abbrev server : CombinedServer ℕ Str ℕ ℕ ℕ Str ℕ
server = record {
  factories = services;
  routing = Combine.routing_of (codes "s") (codes "1") [] advertised inventories;
}

abbrev opened : CombinedHandler ℕ Str ℕ ℕ ℕ Str ℕ
opened = record { members = zeroth ∷ first ∷ []; routing = server.routing }

check_exact_example :
    (check_collisions quote inventories ≡ none) ↔ Distinct (all_declared inventories)
check_exact_example =
    check_exact quote (λ n. (n ++ 34 ∷ [], refl)) (λ n m e. unquoted n m cc) inventories

-- A service that declares one tool twice is refused as a clash with itself.
twice :
    check_collisions quote (
      record {
        tools = codes "add" ∷ codes "add" ∷ [];
        prompts = [];
        resources = [];
        resource_templates = [];
      }
      ∷ [])
    ≡ some (Combine.collisions (Combine.clash ((codes "tool " ++ quote (codes "add"))) 0 0 ∷ []))
unfolding program
twice = refl

abbrev sub : Request ℕ
sub = record { name = codes "sub"; payload = 5 }

tool_reaches_owner_example :
    (m : Service) × (get_elem? opened.members 1 ≡ some m)
    × (Server.call_tool (λ s. s) (λ s. s) opened sub ≡ m.call_tool sub)
unfolding program
tool_reaches_owner_example =
    tool_reaches_owner read quote (codes "s") (codes "1") [] services (λ s. s) (λ s. s) 1 sub 0 0 0
      0 0 advertised inventories refl refl refl refl (inl refl)

list_tools-first_pages_example :
    Server.list_tools opened 0
    ≡ (ok (record { items = codes "add" ∷ codes "sub" ∷ []; next_cursor = none }), 0)
list_tools-first_pages_example = list_tools-first_pages opened (
    asked 1 (record { items = codes "add" ∷ []; next_cursor = some (codes "more") }) refl refl
      (asked 1 (record { items = codes "sub" ∷ []; next_cursor = some (codes "more") }) refl refl
        over))

complete-first_offer_example : Server.complete (λ s. s) (λ s. s) opened sub 0 ≡ (ok (1 ∷ []), 0)
complete-first_offer_example =
    complete-first_offer (λ s. s) (λ s. s) opened sub first [] 1 [] {before = zeroth ∷ []} refl
      (empty refl over) refl
