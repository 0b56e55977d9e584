-- ===== src/Agents/Combine/Routes.antt =====
-- A call is answered by the service that declares its name, and by no other.
use runtime_rs.Base.{
  Distinct, Has, ℕ, zero, suc, ◌+◌, ◌≡◌, ◌≢◌, ◌⊎◌, inl, inr, refl, sym, ap, ◌∙◌, subst, List, [],
  ◌∷◌, ◌++◌, none, some, Str, str_eq_iff, All, arith,
}
use runtime_rs.Base.Assoc.{Map, get, insert, get-insert}
use runtime_rs.Agents.Combine.{Inventory, names, labels, check_collisions, extend, route, get_elem?}
use runtime_rs.Agents.Combine.Clashes.{all_names, names_exact}

abbrev pub Lacking : Str → List Str → Type 0
Lacking n = All (λ m. m ≢ n)

extend-keeps :
    (index : ℕ) (ns : List Str) (n : Str) (m : Map ℕ)
    → get n m ≡ some index
    → get n (extend index ns m) ≡ some index
unfolding extend
extend-keeps index [] n m e = e
extend-keeps index (k ∷ ns) n m e =
    extend-keeps index ns n (insert k index m) (ground (arith, get-insert k n index m))

extend-owned :
    (index : ℕ) (ns : List Str) (n : Str) (m : Map ℕ)
    → Has n ns
    → get n (extend index ns m) ≡ some index
unfolding extend
extend-owned index [] n m h = absurd h
extend-owned index (k ∷ ns) n m (inl e) =
    extend-keeps index ns n (insert k index m)
      (ground (arith, get-insert k n index m, str_eq_iff k n))
extend-owned index (k ∷ ns) n m (inr h) = extend-owned index ns n (insert k index m) h

extend-Lacking :
    (index : ℕ) (ns : List Str) (n : Str) (m : Map ℕ)
    → Lacking n ns
    → get n (extend index ns m) ≡ get n m
unfolding extend
extend-Lacking index [] n m h = refl
extend-Lacking index (k ∷ ns) n m (h, hs) =
    extend-Lacking index ns n (insert k index m) hs
    ∙ ground (arith, get-insert k n index m, str_eq_iff k n)

module _ (field : Inventory → List Str) (n : Str) where
  abbrev AllLack : List Inventory → Type 0
  AllLack = All (λ i. Lacking n (field i))

  -- The services after the one at an index do not declare the name.
  abbrev LaterLack : ℕ → List Inventory → Type 0
  LaterLack k [] = Unit
  LaterLack zero (i ∷ inventories) = AllLack inventories
  LaterLack (suc k) (i ∷ inventories) = LaterLack k inventories

  route-Lacking :
      (index : ℕ) (inventories : List Inventory) (m : Map ℕ)
      → AllLack inventories
      → get n (route field index inventories m) ≡ get n m
  unfolding route
  route-Lacking index [] m h = refl
  route-Lacking index (i ∷ inventories) m (h, hs) =
      route-Lacking (suc index) inventories (extend index (field i) m) hs
      ∙ extend-Lacking index (field i) n m h

  route-owner :
      (index k : ℕ) (inventories : List Inventory) (m : Map ℕ) {i : Inventory}
      → get_elem? inventories k ≡ some i
      → Has n (field i)
      → LaterLack k inventories
      → get n (route field index inventories m) ≡ some (index + k)
  unfolding route
  route-owner index k [] m e h l = absurd (ground arith)
  route-owner index zero (j ∷ inventories) m {i} e h l =
      let same : j ≡ i = ground arith in
      route-Lacking (suc index) inventories (extend index (field j) m) l
      ∙ (extend-owned index (field j) n m (subst (λ i. Has n (field i)) (sym same) h)
          ∙ ap some (omega arith))
  route-owner index (suc k) (j ∷ inventories) m e h l =
      route-owner (suc index) k inventories (extend index (field j) m) e h l ∙ ap some (omega arith)

pub All-right {ℓ} :
    {A : Type ℓ} (P : A → Type 0) (xs ys : List A) → All P (xs ++ ys) → All P xs × All P ys
All-right P [] ys h = (tt, h)
All-right P (x ∷ xs) ys (h, k) = let r = All-right P xs ys k in ((h, r.0), r.1)

pub Has-append : (n : Str) (xs ys : List Str) → Has n xs ⊎ Has n ys → Has n (xs ++ ys)
Has-append n [] ys (inr h) = h
Has-append n [] ys (inl h) = absurd h
Has-append n (x ∷ xs) ys (inl (inl e)) = inl e
Has-append n (x ∷ xs) ys (inl (inr h)) = inr (Has-append n xs ys (inl h))
Has-append n (x ∷ xs) ys (inr h) = inr (Has-append n xs ys (inr h))

Distinct-append : (n : Str) (xs ys : List Str) → Distinct (xs ++ ys) → Has n xs → Lacking n ys
Distinct-append n [] ys d h = absurd h
Distinct-append n (x ∷ xs) ys (l, d) (inl e) =
    subst (λ x. Lacking x ys) e (All-right (λ m. m ≢ x) xs ys l).1
Distinct-append n (x ∷ xs) ys (l, d) (inr h) = Distinct-append n xs ys d h

Distinct-right : (xs ys : List Str) → Distinct (xs ++ ys) → Distinct ys
Distinct-right [] ys d = d
Distinct-right (x ∷ xs) ys (l, d) = Distinct-right xs ys d

module _ (quote : Str → Str) where
  pub labels-Has :
      (kind n : Str) (ns : List Str) → Has n ns → Has (kind ++ quote n) (labels quote kind ns)
  labels-Has kind n (m ∷ ns) (inl e) = inl (ap (λ m. kind ++ quote m) e)
  labels-Has kind n (m ∷ ns) (inr h) = inr (labels-Has kind n ns h)
  labels-Has kind n [] h = absurd h

  pub labels-Lacking :
      (kind n : Str) (ns : List Str)
      → Lacking (kind ++ quote n) (labels quote kind ns)
      → Lacking n ns
  labels-Lacking kind n [] h = tt
  labels-Lacking kind n (m ∷ ns) (h, hs) =
      (λ e. h (ap (λ m. kind ++ quote m) e), labels-Lacking kind n ns hs)

  -- A kind of declarations: its names stand among all names under their label.
  pub record Kind : Type 0 where
    pub field : Inventory → List Str
    pub label : Str
    pub declares :
        (n : Str) (i : Inventory) → Has n (field i) → Has (label ++ quote n) (names quote i)
    pub lacks :
        (n : Str) (i : Inventory) → Lacking (label ++ quote n) (names quote i) → Lacking n (field i)

  module _ (kind : Kind) (n : Str) where
    all_names-Lacking :
        (inventories : List Inventory)
        → Lacking (kind.label ++ quote n) (all_names quote inventories)
        → AllLack kind.field n inventories
    all_names-Lacking [] h = tt
    all_names-Lacking (i ∷ inventories) h =
        let r =
          All-right (λ m. m ≢ kind.label ++ quote n) (names quote i) (all_names quote inventories)
            h in
        (kind.lacks n i r.0, all_names-Lacking inventories r.1)

    later :
        (k : ℕ) (inventories : List Inventory) {i : Inventory}
        → get_elem? inventories k ≡ some i
        → Has n (kind.field i)
        → Distinct (all_names quote inventories)
        → LaterLack kind.field n k inventories
    later k [] e h d = tt
    later zero (j ∷ inventories) {i} e h d =
        let same : j ≡ i = ground arith in
        all_names-Lacking inventories (
          Distinct-append (kind.label ++ quote n) (names quote j) (all_names quote inventories) d
            (kind.declares n j (subst (λ i. Has n (kind.field i)) (sym same) h)))
    later (suc k) (j ∷ inventories) e h d =
        later k inventories e h (Distinct-right (names quote j) (all_names quote inventories) d)

    -- Where no name is declared twice, a name is routed to the service that declares it.
    pub route_exact :
        (k : ℕ) (inventories : List Inventory) {i : Inventory}
        → get_elem? inventories k ≡ some i
        → Has n (kind.field i)
        → check_collisions quote inventories ≡ none
        → get n (route kind.field 0 inventories []) ≡ some k
    route_exact k inventories e h c =
        route-owner kind.field n 0 k inventories [] e h
          (later k inventories e h ((names_exact quote inventories).0 c))
        ∙ ap some (omega arith)
