-- ===== src/Agents/Combine.antt =====
-- agents/src/mcp/combine.rs: one MCP server that carries several services. The services are rmcp's
-- handlers, over a world `W` that their calls may change; payloads, answers, list items and values of
-- completions are of any types. `quote` stands for the `{:?}` of a text.
pub mod Server
pub mod Clashes
pub mod Declared
pub mod Routes
use runtime_rs.Base.{
  ℕ, zero, suc, ◌+◌, if◌then◌else◌, Bool, true, false, List, [], ◌∷◌, ◌++◌, map, Option, none, some,
  Str, codes,
}
use runtime_rs.Base.Assoc.{Map, get, insert}
use runtime_rs.Base.Decimal.{decimal}

pub data Result {ℓ} (X A : Type ℓ) : Type ℓ where
  ok : A → Result X A
  err : X → Result X A
  panic : Result X A

abbrev pub Exec : Type 0 → Type 0 → Type 0 → Type 0
Exec W X A = W → Result X A × W

module _ {W X Y A B : Type 0} where
  abbrev pub proceed : Result X A × W → (A → Exec W Y B) → (X → Y) → Result Y B × W
  proceed (ok a, w) f g = f a w
  proceed (err e, w) f g = (err (g e), w)
  proceed (panic, w) f g = (panic, w)

  -- `?` after `map_err`.
  abbrev pub try : Exec W X A → (X → Y) → (A → Exec W Y B) → Exec W Y B
  try m g f w = proceed (m w) f g

module _ {W X A : Type 0} where
  abbrev pub pure : A → Exec W X A
  pure a w = (ok a, w)

  abbrev pub raise : X → Exec W X A
  raise e w = (err e, w)

  abbrev pub crash : Exec W X A
  crash w = (panic, w)

pub record Inventory : Type 0 where
  pub tools : List Str
  pub prompts : List Str
  pub resources : List Str
  pub resource_templates : List Str

pub data CombineError : Type 0 where
  inventory : ℕ → Str → CombineError
  collisions : List Str → CombineError

module _ (quote : Str → Str) where
  abbrev pub labels : Str → List Str → List Str
  labels kind [] = []
  labels kind (n ∷ ns) = (kind ++ quote n) ∷ labels kind ns

  -- `Inventory::names`
  abbrev pub names : Inventory → List Str
  names i =
      labels (codes "tool ") i.tools
      ++ (labels (codes "prompt ") i.prompts
          ++ (labels (codes "resource ") i.resources
              ++ labels (codes "resource template ") i.resource_templates))

pub clash : Str → ℕ → ℕ → Str
clash name first index =
    codes "mcp: "
    ++ (name
        ++ (codes " is declared by both service #"
            ++ (decimal first
                ++ (codes " and service #"
                    ++ (decimal index
                        ++ codes "; every name on a combined server must be unique")))))

-- The owners of the names so far, and the clashes.
abbrev pub Seen : Type 0
Seen = Map ℕ × List Str

abbrev pub see : ℕ → Str → Option ℕ → Seen → Seen
see index name (some first) (owner, clashes) = (owner, clashes ++ clash name first index ∷ [])
see index name none (owner, clashes) = (insert name index owner, clashes)

pub check_names : ℕ → List Str → Seen → Seen
check_names index [] seen = seen
check_names index (name ∷ names) seen =
    check_names index names (see index name (get name seen.0) seen)

module _ (quote : Str → Str) where
  pub check_each : ℕ → List Inventory → Seen → Seen
  unfolding check_names
  check_each index [] seen = seen
  check_each index (i ∷ inventories) seen =
      check_each (suc index) inventories (check_names index (names quote i) seen)

  -- The error, if there is one.
  pub check_collisions : List Inventory → Option CombineError
  unfolding check_each
  check_collisions inventories = elim (check_each 0 inventories ([], [])).1 [
    | [] ↦ none
    | c ∷ clashes ↦ some (collisions (c ∷ clashes))
  ]

pub record Capabilities (C : Type 0) : Type 0 where
  pub tools : Option C
  pub prompts : Option C
  pub resources : Option C
  pub completions : Option C
  pub logging : Option C

abbrev pub first_of {ℓ} : {A : Type ℓ} → Option A → Option A → Option A
first_of (some a) b = some a
first_of none b = b

pub merge_capabilities : {C : Type 0} → Capabilities C → Capabilities C → Capabilities C
merge_capabilities into from = record {
  tools = first_of into.tools from.tools;
  prompts = first_of into.prompts from.prompts;
  resources = first_of into.resources from.resources;
  completions = first_of into.completions from.completions;
  logging = first_of into.logging from.logging;
}

pub record Info (C : Type 0) : Type 0 where
  pub name : Str
  pub version : Str
  pub instructions : Option Str
  pub capabilities : Capabilities C

pub record Routing (C : Type 0) : Type 0 where
  pub info : Info C
  pub tools : Map ℕ
  pub prompts : Map ℕ
  pub resources : Map ℕ

-- `HashMap::extend` by one inventory's names.
pub extend : ℕ → List Str → Map ℕ → Map ℕ
extend index [] m = m
extend index (n ∷ ns) m = extend index ns (insert n index m)

-- One of the three maps, over the inventories from `index` on.
pub route : (Inventory → List Str) → ℕ → List Inventory → Map ℕ → Map ℕ
unfolding extend
route field index [] m = m
route field index (i ∷ inventories) m =
    route field (suc index) inventories (extend index (field i) m)

abbrev pub instructions_of : Str → Option Str
instructions_of [] = none
instructions_of (c ∷ text) = some (c ∷ text)

module _ {C : Type 0} where
  pub routing_of : Str → Str → Str → Capabilities C → List Inventory → Routing C
  unfolding route
  routing_of name version instructions capabilities inventories = record {
    info = record {
      name = name;
      version = version;
      instructions = instructions_of instructions;
      capabilities = capabilities;
    };
    tools = route (λ i. i.tools) 0 inventories [];
    prompts = route (λ i. i.prompts) 0 inventories [];
    resources = route (λ i. i.resources) 0 inventories [];
  }

pub record Request (Q : Type 0) : Type 0 where
  pub name : Str
  pub payload : Q

pub record Page (I : Type 0) : Type 0 where
  pub items : List I
  pub next_cursor : Option Str

pub record Member (W X C Q A I V : Type 0) : Type 0 where
  pub capabilities : Capabilities C
  pub call_tool : Request Q → Exec W X A
  pub get_prompt : Request Q → Exec W X A
  pub read_resource : Request Q → Exec W X A
  pub complete : Request Q → Exec W X (List V)
  pub list_tools : Option Str → Exec W X (Page I)
  pub list_prompts : Option Str → Exec W X (Page I)
  pub list_resources : Option Str → Exec W X (Page I)
  pub list_resource_templates : Option Str → Exec W X (Page I)

abbrev pub get_elem? {ℓ} : {A : Type ℓ} → List A → ℕ → Option A
get_elem? [] i = none
get_elem? (x ∷ xs) zero = some x
get_elem? (x ∷ xs) (suc i) = get_elem? xs i
