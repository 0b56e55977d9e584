-- ===== src/Agents/Combine/Server/Lists.antt =====
-- The lists and completions of a session, over what its services answer in turn.
use runtime_rs.Base.{
  ◌≡◌, refl, sym, ap, ◌∙◌, List, [], ◌∷◌, ◌++◌, Option, none, some, Str, append-nil, append-append,
}
use runtime_rs.Agents.Combine.{Request, Page, Member, Capabilities, ok, err, Exec}
use runtime_rs.Agents.Combine.Server
use runtime_rs.Agents.Combine.Server.{CombinedHandler}

module _ {W X C Q A I V : Type 0} where
  module _ (has : Capabilities C → Option C)
      (list : Member W X C Q A I V → Option Str → Exec W X (Page I)) where
    -- The first pages of the services that advertise the kind, one after the other.
    pub data FirstPages : List (Member W X C Q A I V) → W → List I → W → Type 0 where
      over : {w : W} → FirstPages [] w [] w
      unasked :
          {m : Member W X C Q A I V} {ms : List (Member W X C Q A I V)} {w v : W} {items : List I}
          → has m.capabilities ≡ none
          → FirstPages ms w items v
          → FirstPages (m ∷ ms) w items v
      asked :
          {m : Member W X C Q A I V} {ms : List (Member W X C Q A I V)} {w w' v : W}
          {items : List I} (c : C) (page : Page I)
          → has m.capabilities ≡ some c
          → list m none w ≡ (ok page, w')
          → FirstPages ms w' items v
          → FirstPages (m ∷ ms) w (page.items ++ items) v

    list_all-first_pages :
        (all : List I) {ms : List (Member W X C Q A I V)} {w v : W} {items : List I}
        → FirstPages ms w items v
        → Server.list_all has list ms all w
          ≡ (ok (record { items = all ++ items; next_cursor = none }), v)
    unfolding Server.list_all
    list_all-first_pages all {w} over =
        ap (λ items. (ok (record { items = items; next_cursor = none }), w)) (sym (append-nil all))
    list_all-first_pages all (unasked e p) = rw e (list_all-first_pages all p)
    list_all-first_pages all {v} (asked {items} c page e l p) =
        rw (e, l)
          (list_all-first_pages (all ++ page.items) p
            ∙ ap (λ items. (ok (record { items = items; next_cursor = none }), v))
                (append-append all page.items items))

  -- Where each service that advertises tools answers with a page, the list of tools is their first
  -- pages end to end, with no cursor, whatever cursors they gave.
  pub list_tools-first_pages :
      (h : CombinedHandler W X C Q A I V) {w v : W} {items : List I}
      → FirstPages (λ c. c.tools) (λ m. m.list_tools) h.members w items v
      → Server.list_tools h w ≡ (ok (record { items = items; next_cursor = none }), v)
  unfolding Server.list_tools
  list_tools-first_pages h p = list_all-first_pages (λ c. c.tools) (λ m. m.list_tools) [] p

  -- Services that are asked for a completion and offer no value; the first error is kept.
  pub data Passed (q : Request Q)
      : List (Member W X C Q A I V) → Option X → W → Option X → W → Type 0 where
    over : {e : Option X} {w : W} → Passed q [] e w e w
    empty :
        {m : Member W X C Q A I V} {ms : List (Member W X C Q A I V)} {e f : Option X} {w w' v : W}
        → m.complete q w ≡ (ok [], w')
        → Passed q ms e w' f v
        → Passed q (m ∷ ms) e w f v
    erred :
        {m : Member W X C Q A I V} {ms : List (Member W X C Q A I V)} {e f : Option X} {w w' v : W}
        (x : X)
        → m.complete q w ≡ (err x, w')
        → Passed q ms (Server.keep_first e x) w' f v
        → Passed q (m ∷ ms) e w f v

  module _ (invalid_params resource_not_found : Str → X) where
    complete_each-passed :
        (h : CombinedHandler W X C Q A I V) (q : Request Q) (after : List (Member W X C Q A I V))
        {before : List (Member W X C Q A I V)} {e f : Option X} {w v : W}
        → Passed q before e w f v
        → Server.complete_each invalid_params resource_not_found h (before ++ after) q e w
          ≡ Server.complete_each invalid_params resource_not_found h after q f v
    unfolding Server.complete_each
    complete_each-passed h q after over = refl
    complete_each-passed h q after (empty a p) = rw a (complete_each-passed h q after p)
    complete_each-passed h q after (erred x a p) = rw a (complete_each-passed h q after p)

    -- The first service that offers a value is the one that answers a completion: those before it
    -- are asked, and may fail; those after it are not asked.
    pub complete-first_offer :
        (h : CombinedHandler W X C Q A I V) (q : Request Q) (m : Member W X C Q A I V)
        (after : List (Member W X C Q A I V)) (value : V) (values : List V)
        {before : List (Member W X C Q A I V)} {e : Option X} {w w' v : W}
        → h.members ≡ before ++ m ∷ after
        → Passed q before none w e w'
        → m.complete q w' ≡ (ok (value ∷ values), v)
        → Server.complete invalid_params resource_not_found h q w ≡ (ok (value ∷ values), v)
    unfolding Server.complete Server.complete_each
    complete-first_offer h q m after value values {e} {w} {w'} members passed offer =
        ap (λ ms. Server.complete_each invalid_params resource_not_found h ms q none w) members
        ∙ (complete_each-passed h q (m ∷ after) passed ∙ rw offer refl)
