-- ===== src/Agents/Combine/Server/Calls.antt =====
-- From `new` to a call: the sessions of a combined server reach the service that declares a name.
use runtime_rs.Base.{
  Has, ℕ, zero, suc, ◌+◌, ◌≡◌, inl, inr, refl, ap, ◌∙◌, subst, List, [], ◌∷◌, ◌++◌, Option, none,
  some, Str, codes, arith, length, length-append,
}
use runtime_rs.Base.Assoc.{get}
use runtime_rs.Agents.Combine.{
  Inventory, labels, check_collisions, get_elem?, Routing, routing_of, Request, Member,
  Capabilities, Result, ok, err, panic, Exec, proceed, CombineError, merge_capabilities,
}
use runtime_rs.Agents.Combine.Routes.{
  Has-append, labels-Has, labels-Lacking, All-right, Kind, route_exact,
}
use runtime_rs.Agents.Combine.Server
use runtime_rs.Agents.Combine.Server.{CombinedServer, CombinedHandler, Factory, no_capabilities}

module _ (quote : Str → Str) where
  abbrev tools_kind : Kind quote
  tools_kind = record {
    field = λ i. i.tools;
    label = codes "tool ";
    declares = λ n i h.
        Has-append (codes "tool " ++ quote n) (labels quote (codes "tool ") i.tools) _
          (inl (labels-Has quote (codes "tool ") n i.tools h));
    lacks = λ n i h.
        labels-Lacking quote (codes "tool ") n i.tools
          (All-right _ (labels quote (codes "tool ") i.tools) _ h).0;
  }

  abbrev resources_kind : Kind quote
  resources_kind = record {
    field = λ i. i.resources;
    label = codes "resource ";
    declares = λ n i h.
        Has-append (codes "resource " ++ quote n) (labels quote (codes "tool ") i.tools) _ (
          inr (
            Has-append (codes "resource " ++ quote n) (labels quote (codes "prompt ") i.prompts) _ (
              inr (
                Has-append (codes "resource " ++ quote n)
                  (labels quote (codes "resource ") i.resources) _
                  (inl (labels-Has quote (codes "resource ") n i.resources h))))));
    lacks = λ n i h.
        labels-Lacking quote (codes "resource ") n i.resources
          (All-right _ (labels quote (codes "resource ") i.resources) _
            (All-right _ (labels quote (codes "prompt ") i.prompts) _
              (All-right _ (labels quote (codes "tool ") i.tools) _ h).1).1).0;
  }

module _ {W X Y A B : Type 0} where
  proceed-ok :
      (r : Result X A × W) (f : A → Exec W Y B) (g : X → Y) {b : B} {v : W}
      → proceed r f g ≡ (ok b, v)
      → (a : A) × (w : W) × (r ≡ (ok a, w)) × (f a w ≡ (ok b, v))
  proceed-ok (ok a, w) f g e = (a, w, refl, e)
  proceed-ok (err x, w) f g e = absurd (ground arith)
  proceed-ok (panic, w) f g e = absurd (ground arith)

get_elem?-same_length :
    {A B : Type 0} (k : ℕ) (xs : List A) (ys : List B) {x : A}
    → length xs ≡ length ys
    → get_elem? xs k ≡ some x
    → (y : B) × (get_elem? ys k ≡ some y)
get_elem?-same_length k [] ys l e = absurd (ground arith)
get_elem?-same_length k (x ∷ xs) [] l e = absurd (omega (arith, l))
get_elem?-same_length zero (x ∷ xs) (y ∷ ys) l e = (y, refl)
get_elem?-same_length (suc k) (x ∷ xs) (y ∷ ys) l e =
    get_elem?-same_length k xs ys (omega (arith, l)) e

module _ {W X C Q A I V : Type 0} where
  build-length :
      (factories : List (Factory W X C Q A I V)) (w v : W) {members : List (Member W X C Q A I V)}
      → Server.build factories w ≡ (ok members, v)
      → length members ≡ length factories
  unfolding Server.build
  build-length [] w v e = ground arith
  build-length (factory ∷ factories) w v {members} e =
      let (handler, w', made, k) = proceed-ok (factory w) _ _ e in
      let (rest, w'', built, l) = proceed-ok (Server.build factories w') _ _ k in
      let same : members ≡ handler ∷ rest = ground arith in
      ap length same ∙ ap suc (build-length factories w' w'' built)

  session-routing :
      (server : CombinedServer W X C Q A I V) (w v : W) {h : CombinedHandler W X C Q A I V}
      → Server.session server w ≡ (ok h, v)
      → (h.routing ≡ server.routing) × (length h.members ≡ length server.factories)
  unfolding Server.session
  session-routing server w v {h} e =
      let (members, w', built, k) = proceed-ok (Server.build server.factories w) _ _ e in
      let same : h ≡ record { members = members; routing = server.routing } = ground arith in
      (
        ap (λ (h : CombinedHandler W X C Q A I V). h.routing) same,
        ap (λ (h : CombinedHandler W X C Q A I V). length h.members) same
            ∙ build-length server.factories w w' built,
      )

  module _ (read : Member W X C Q A I V → Exec W Str Inventory) (quote : Str → Str) where
    take_inventories-length :
        (index : ℕ) (factories : List (Factory W X C Q A I V)) (into : Capabilities C)
        (before : List Inventory) (w v : W) {capabilities : Capabilities C} {found : List Inventory}
        → Server.take_inventories read quote index factories into before w
          ≡ (ok (capabilities, found), v)
        → length found ≡ length before + length factories
    unfolding Server.take_inventories
    take_inventories-length index [] into before w v {capabilities} {found} e =
        let same : found ≡ before = ground arith in omega (arith, ap length same)
    take_inventories-length index (factory ∷ factories) into before w v e =
        let (handler, w', made, k) = proceed-ok (factory w) _ _ e in
        let (i, w'', found, l) = proceed-ok (read handler w') _ _ k in
        omega (
          arith,
          take_inventories-length (suc index) factories
              (merge_capabilities into handler.capabilities) (before ++ i ∷ []) w'' v l,
          length-append before (i ∷ []),
        )

    combined-ok :
        (name version instructions : Str) (factories : List (Factory W X C Q A I V)) (w v : W)
        (capabilities : Capabilities C) (found : List Inventory) (clash : Option CombineError)
        {server : CombinedServer W X C Q A I V}
        → Server.combined read quote name version instructions factories
            (capabilities, found)
            clash
            w
          ≡ (ok server, v)
        → (clash ≡ none)
          × (server ≡ record {
            factories = factories;
            routing = routing_of name version instructions capabilities found;
          })
    combined-ok name version instructions factories w v capabilities found none e =
        (refl, ground arith)
    combined-ok name version instructions factories w v capabilities found (some clash) e =
        absurd (ground arith)

    new-routing :
        (name version instructions : Str) (factories : List (Factory W X C Q A I V)) (w v v' : W)
        (capabilities : Capabilities C) (found : List Inventory)
        {server : CombinedServer W X C Q A I V}
        → Server.take_inventories read quote 0 factories no_capabilities [] w
          ≡ (ok (capabilities, found), v)
        → Server.new read quote name version instructions factories w ≡ (ok server, v')
        → (check_collisions quote found ≡ none)
          × (server.routing ≡ routing_of name version instructions capabilities found)
          × (server.factories ≡ factories)
    unfolding Server.new
    new-routing name version instructions factories w v v' capabilities found {server} taken e =
        let e' : Server.combined read quote name version instructions factories
              (capabilities, found) (check_collisions quote found) v
            ≡ (ok server, v') =
          subst
            (λ r.
              proceed r
                (λ found.
                  Server.combined read quote name version instructions factories found
                    (check_collisions quote found.1))
                (λ e. e)
              ≡ (ok server, v'))
            taken e in
        let k =
          combined-ok name version instructions factories v v' capabilities found
            (check_collisions quote found) e' in
        (
          k.0,
          ap (λ (s : CombinedServer W X C Q A I V). s.routing) k.1,
          ap (λ (s : CombinedServer W X C Q A I V). s.factories) k.1,
        )

    module _ (name version instructions : Str) (factories : List (Factory W X C Q A I V))
        (invalid_params resource_not_found : Str → X) where
      -- The members of a session stand for the inventories, in their order, under their routes.
      session_of_new :
          (k : ℕ) (w v v' x y : W) (capabilities : Capabilities C) (found : List Inventory)
          {server : CombinedServer W X C Q A I V} {h : CombinedHandler W X C Q A I V}
          {i : Inventory}
          → Server.take_inventories read quote 0 factories no_capabilities [] w
            ≡ (ok (capabilities, found), v)
          → Server.new read quote name version instructions factories w ≡ (ok server, v')
          → Server.session server x ≡ (ok h, y)
          → get_elem? found k ≡ some i
          → (m : Member W X C Q A I V) × (get_elem? h.members k ≡ some m)
            × (check_collisions quote found ≡ none)
            × (h.routing ≡ routing_of name version instructions capabilities found)
      session_of_new k w v v' x y capabilities found {server} {h} taken made opened e =
          let n =
            new-routing name version instructions factories w v v' capabilities found taken made in
          let s = session-routing server x y opened in
          let l = take_inventories-length 0 factories no_capabilities [] w v taken in
          let same : length found ≡ length h.members = omega (arith, l, s.1, ap length n.2) in
          let (m, at) = get_elem?-same_length k found h.members same e in (m, at, n.0, s.0 ∙ n.1)

      -- Let a server be made of services whose inventories were read, and a session of it be opened.
      -- Then a call of a tool that the service at an index declares is that service's own call: its
      -- handler in the session gets the request, and its answer is the answer.
      pub tool_reaches_owner :
          (k : ℕ) (q : Request Q) (w v v' x y : W) (capabilities : Capabilities C)
          (found : List Inventory) {server : CombinedServer W X C Q A I V}
          {h : CombinedHandler W X C Q A I V} {i : Inventory}
          → Server.take_inventories read quote 0 factories no_capabilities [] w
            ≡ (ok (capabilities, found), v)
          → Server.new read quote name version instructions factories w ≡ (ok server, v')
          → Server.session server x ≡ (ok h, y)
          → get_elem? found k ≡ some i
          → Has q.name i.tools
          → (m : Member W X C Q A I V) × (get_elem? h.members k ≡ some m)
            × (Server.call_tool invalid_params resource_not_found h q ≡ m.call_tool q)
      unfolding Server.call_tool routing_of
      tool_reaches_owner k q w v v' x y capabilities found {h} taken made opened e declared =
          let (m, at, unique, routes) =
            session_of_new k w v v' x y capabilities found taken made opened e in
          let owner : get q.name h.routing.tools ≡ some k =
            ap (λ (r : Routing C). get q.name r.tools) routes
            ∙ route_exact quote (tools_kind quote) q.name k found e declared unique in
          (m, at, rw (owner, at) refl)

      -- So too a reading of a resource whose URI a service declares; in particular the index into
      -- the session's handlers, which is not checked, is in range.
      pub resource_reaches_owner :
          (k : ℕ) (q : Request Q) (w v v' x y : W) (capabilities : Capabilities C)
          (found : List Inventory) {server : CombinedServer W X C Q A I V}
          {h : CombinedHandler W X C Q A I V} {i : Inventory}
          → Server.take_inventories read quote 0 factories no_capabilities [] w
            ≡ (ok (capabilities, found), v)
          → Server.new read quote name version instructions factories w ≡ (ok server, v')
          → Server.session server x ≡ (ok h, y)
          → get_elem? found k ≡ some i
          → Has q.name i.resources
          → (m : Member W X C Q A I V) × (get_elem? h.members k ≡ some m)
            × (Server.read_resource invalid_params resource_not_found h q ≡ m.read_resource q)
      unfolding Server.read_resource routing_of
      resource_reaches_owner k q w v v' x y capabilities found {h} taken made opened e declared =
          let (m, at, unique, routes) =
            session_of_new k w v v' x y capabilities found taken made opened e in
          let owner : get q.name h.routing.resources ≡ some k =
            ap (λ (r : Routing C). get q.name r.resources) routes
            ∙ route_exact quote (resources_kind quote) q.name k found e declared unique in
          (m, at, rw (owner, at) refl)
