-- ===== src/Agents/Combine/Server.antt =====
-- agents/src/mcp/combine.rs: the combined server, its sessions, and what a session answers.
pub mod Calls
pub mod Lists
mod Tests
use runtime_rs.Base.{
  ℕ, zero, suc, ◌+◌, if◌then◌else◌, Bool, true, false, List, [], ◌∷◌, ◌++◌, map, Option, none, some,
  Str, codes,
}
use runtime_rs.Base.Assoc.{get}
use runtime_rs.Agents.Combine.{
  Result, ok, err, panic, Exec, try, pure, raise, crash, Inventory, CombineError, inventory,
  check_collisions, Capabilities, merge_capabilities, Routing, routing_of, Request, Page, Member,
  get_elem?,
}

module _ (W X C Q A I V : Type 0) where
  abbrev pub Factory : Type 0
  Factory = Exec W Str (Member W X C Q A I V)

  pub record CombinedServer : Type 0 where
    pub factories : List Factory
    pub routing : Routing C

  pub record CombinedHandler : Type 0 where
    pub members : List (Member W X C Q A I V)
    pub routing : Routing C

-- `Option::get_or_insert`
abbrev pub keep_first : {X : Type 0} → Option X → X → Option X
keep_first (some e) f = some e
keep_first none f = some f

abbrev pub if_some {ℓ κ} : {C : Type ℓ} {A : Type κ} → Option C → A → A → A
if_some (some _) a b = a
if_some none a b = b

-- `ServerCapabilities::default`
abbrev pub no_capabilities : {C : Type 0} → Capabilities C
no_capabilities = record {
  tools = none;
  prompts = none;
  resources = none;
  completions = none;
  logging = none;
}

module _ {W X C Q A I V : Type 0} where
  -- `read` is the free function `inventory`: it asks a service for its lists over a session in memory.
  module _ (read : Member W X C Q A I V → Exec W Str Inventory) (quote : Str → Str) where
    pub take_inventories :
        ℕ
        → List (Factory W X C Q A I V)
        → Capabilities C
        → List Inventory
        → Exec W CombineError (Capabilities C × List Inventory)
    take_inventories index [] capabilities found = pure (capabilities, found)
    take_inventories index (factory ∷ factories) capabilities found =
        try factory (inventory index) λ handler. try (read handler) (inventory index) λ i.
          take_inventories (suc index) factories
            (merge_capabilities capabilities handler.capabilities) (found ++ i ∷ [])

    abbrev pub combined :
        Str
        → Str
        → Str
        → List (Factory W X C Q A I V)
        → Capabilities C × List Inventory
        → Option CombineError
        → Exec W CombineError (CombinedServer W X C Q A I V)
    combined name version instructions factories found (some e) = raise e
    combined name version instructions factories (capabilities, found) none = pure (record {
      factories = factories;
      routing = routing_of name version instructions capabilities found;
    })

    pub new :
        Str
        → Str
        → Str
        → List (Factory W X C Q A I V)
        → Exec W CombineError (CombinedServer W X C Q A I V)
    unfolding take_inventories check_collisions routing_of
    new name version instructions factories =
        try (take_inventories 0 factories no_capabilities []) (λ e. e)
          λ found.
            combined name version instructions factories found (check_collisions quote found.1)

    pub from_handlers :
        Str
        → Str
        → Str
        → List (Member W X C Q A I V)
        → Exec W CombineError (CombinedServer W X C Q A I V)
    unfolding new
    from_handlers name version instructions handlers =
        new name version instructions (map (λ handler. pure handler) handlers)

  pub build : List (Factory W X C Q A I V) → Exec W Str (List (Member W X C Q A I V))
  build [] = pure []
  build (factory ∷ factories) =
      try factory (λ e. e)
        λ handler. try (build factories) (λ e. e) λ members. pure (handler ∷ members)

  pub session : CombinedServer W X C Q A I V → Exec W Str (CombinedHandler W X C Q A I V)
  unfolding build
  session server =
      try (build server.factories) (λ e. e)
        λ members. pure (record { members = members; routing = server.routing })

  -- `McpError::invalid_params` and `resource_not_found` are rmcp's.
  module _ (invalid_params : Str → X) (resource_not_found : Str → X)
      (h : CombinedHandler W X C Q A I V) where
    abbrev at : Option ℕ → Option (Member W X C Q A I V)
    at none = none
    at (some index) = get_elem? h.members index

    abbrev pub or_unknown :
        Option (Member W X C Q A I V) → Str → Str → (Member W X C Q A I V → Exec W X A) → Exec W X A
    or_unknown (some m) kind name call = call m
    or_unknown none kind name call =
        raise (invalid_params (codes "unknown " ++ (kind ++ (codes ": " ++ name))))

    pub call_tool : Request Q → Exec W X A
    call_tool q =
        or_unknown (at (get q.name h.routing.tools)) (codes "tool") q.name (λ m. m.call_tool q)

    pub get_prompt : Request Q → Exec W X A
    get_prompt q =
        or_unknown (at (get q.name h.routing.prompts)) (codes "prompt") q.name (λ m. m.get_prompt q)

    abbrev or_next : Result X A × W → (X → Exec W X A) → Result X A × W
    or_next (ok a, w) next = (ok a, w)
    or_next (err e, w) next = next e w
    or_next (panic, w) next = (panic, w)

    -- Each service is asked in turn, and the last error is kept.
    pub ask_each : List (Member W X C Q A I V) → Request Q → X → Exec W X A
    ask_each [] q last = raise last
    ask_each (m ∷ members) q last =
        let rest = λ (e : X). ask_each members q e in λ w. or_next (m.read_resource q w) rest

    -- An index out of range panics.
    abbrev indexed :
        Option (Member W X C Q A I V) → (Member W X C Q A I V → Exec W X A) → Exec W X A
    indexed (some m) call = call m
    indexed none call = crash

    abbrev pub read_at : Option ℕ → Request Q → Exec W X A
    read_at (some index) q = indexed (get_elem? h.members index) (λ m. m.read_resource q)
    read_at none q =
        ask_each h.members q (resource_not_found (codes "unknown resource: " ++ q.name))

    pub read_resource : Request Q → Exec W X A
    unfolding ask_each
    read_resource q = read_at (get q.name h.routing.resources) q

    abbrev or_offered :
        Result X (List V) × W → Option X → (Option X → Exec W X (List V)) → Result X (List V) × W
    or_offered (ok [], w) error next = next error w
    or_offered (ok (v ∷ values), w) error next = (ok (v ∷ values), w)
    or_offered (err e, w) error next = next (keep_first error e) w
    or_offered (panic, w) error next = (panic, w)

    -- Of a completion only its values matter here; the default has none.
    pub complete_each : List (Member W X C Q A I V) → Request Q → Option X → Exec W X (List V)
    complete_each [] q none = pure []
    complete_each [] q (some e) = raise e
    complete_each (m ∷ members) q error =
        let rest = λ (e : Option X). complete_each members q e in
        λ w. or_offered (m.complete q w) error rest

    pub complete : Request Q → Exec W X (List V)
    unfolding complete_each
    complete q = complete_each h.members q none

  -- The loop of the four lists: a service that advertises the kind is asked for its list.
  pub list_all :
      (Capabilities C → Option C)
      → (Member W X C Q A I V → Option Str → Exec W X (Page I))
      → List (Member W X C Q A I V)
      → List I
      → Exec W X (Page I)
  list_all has list [] all = pure (record { items = all; next_cursor = none })
  list_all has list (m ∷ members) all =
      let rest = list_all has list members in
      if_some (has m.capabilities) (try (list m none) (λ e. e) λ page. rest (all ++ page.items))
        (rest all)

  module _ (h : CombinedHandler W X C Q A I V) where
    pub list_tools : Exec W X (Page I)
    unfolding list_all
    list_tools = list_all (λ c. c.tools) (λ m. m.list_tools) h.members []

    pub list_prompts : Exec W X (Page I)
    unfolding list_all
    list_prompts = list_all (λ c. c.prompts) (λ m. m.list_prompts) h.members []

    pub list_resources : Exec W X (Page I)
    unfolding list_all
    list_resources = list_all (λ c. c.resources) (λ m. m.list_resources) h.members []

    pub list_resource_templates : Exec W X (Page I)
    unfolding list_all
    list_resource_templates =
        list_all (λ c. c.resources) (λ m. m.list_resource_templates) h.members []
