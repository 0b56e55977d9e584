-- ===== src/Agents/Combine/Clashes.antt =====
-- The check of the names fails exactly where a name is spelled twice.
use runtime_rs.Base.{
  Distinct, ℕ, suc, ◌≡◌, ◌≢◌, ◌↔◌, refl, sym, ap, ◌∙◌, subst, if◌then◌else◌, List, [], ◌∷◌, ◌++◌,
  none, some, Str, str_eq, str_eq_iff, All, arith, Option-cases, inl, inr,
}
use runtime_rs.Base.Assoc.{get, insert, get-insert}
use runtime_rs.Base.Assoc
use runtime_rs.Agents.Combine.{
  Inventory, names, Seen, see, check_names, check_each, check_collisions,
}

-- The names with the number of the service that declares each.
abbrev Flat : Type 0
Flat = List (ℕ × Str)

abbrev texts : Flat → List Str
texts [] = []
texts ((i, n) ∷ l) = n ∷ texts l

abbrev tag : ℕ → List Str → Flat
tag index [] = []
tag index (n ∷ ns) = (index, n) ∷ tag index ns

abbrev check_flat : Flat → Seen → Seen
check_flat [] seen = seen
check_flat ((i, n) ∷ l) seen = check_flat l (see i n (get n seen.0) seen)

check_flat-append :
    (l k : Flat) (seen : Seen) → check_flat (l ++ k) seen ≡ check_flat k (check_flat l seen)
check_flat-append [] k seen = refl
check_flat-append ((i, n) ∷ l) k seen = check_flat-append l k (see i n (get n seen.0) seen)

check_names-flat :
    (index : ℕ) (ns : List Str) (seen : Seen)
    → check_names index ns seen ≡ check_flat (tag index ns) seen
unfolding check_names
check_names-flat index [] seen = refl
check_names-flat index (n ∷ ns) seen = check_names-flat index ns (see index n (get n seen.0) seen)

texts-append : (l k : Flat) → texts (l ++ k) ≡ texts l ++ texts k
texts-append [] k = refl
texts-append ((i, n) ∷ l) k = ap (λ ns. n ∷ ns) (texts-append l k)

texts-tag : (index : ℕ) (ns : List Str) → texts (tag index ns) ≡ ns
texts-tag index [] = refl
texts-tag index (n ∷ ns) = ap (λ ns. n ∷ ns) (texts-tag index ns)

abbrev Fresh : Seen → List Str → Type 0
Fresh seen = All (λ n. get n seen.0 ≡ none)

-- A name that is not there after an insertion is another one, and was not there before.
insert-Fresh :
    (i : ℕ) (n : Str) (seen : Seen) (ns : List Str)
    → Fresh (insert n i seen.0, seen.1) ns
    → Fresh seen ns × All (λ m. m ≢ n) ns
insert-Fresh i n seen [] h = (tt, tt)
insert-Fresh i n seen (m ∷ ns) (h, k) =
    let r = insert-Fresh i n seen ns k in
    let e : (if str_eq n m then some i else get m seen.0) ≡ none =
      sym (get-insert n m i seen.0) ∙ h in
    ((ground (arith, str_eq_iff n m), r.0), (λ same. absurd (ground (arith, str_eq_iff n m)), r.1))

Fresh-insert :
    (i : ℕ) (n : Str) (seen : Seen) (ns : List Str)
    → Fresh seen ns
    → All (λ m. m ≢ n) ns
    → Fresh (insert n i seen.0, seen.1) ns
Fresh-insert i n seen [] h k = tt
Fresh-insert i n seen (m ∷ ns) (h, hs) (k, ks) =
    (ground (arith, get-insert n m i seen.0, str_eq_iff n m), Fresh-insert i n seen ns hs ks)

check_flat-clashes :
    (l : Flat) (seen : Seen)
    → (check_flat l seen).1 ≡ []
    → (seen.1 ≡ []) × Fresh seen (texts l) × Distinct (texts l)
check_flat-clashes [] seen e = (e, tt, tt)
check_flat-clashes ((i, n) ∷ l) seen e = elim (Option-cases (get n seen.0)) [
  | inl new ↦
      let e' : (check_flat l (see i n none seen)).1 ≡ [] =
        subst (λ o. (check_flat l (see i n o seen)).1 ≡ []) new e in
      let h = check_flat-clashes l (insert n i seen.0, seen.1) e' in
      let k = insert-Fresh i n seen (texts l) h.1 in (h.0, (new, k.0), (k.1, h.2))
  | inr (first, old) ↦
      let e' : (check_flat l (see i n (some first) seen)).1 ≡ [] =
        subst (λ o. (check_flat l (see i n o seen)).1 ≡ []) old e in
      absurd (snoc-ne-nil seen.1 _ (check_flat-clashes l (see i n (some first) seen) e').0)
]
  where
    snoc-ne-nil : (xs : List Str) (x : Str) → xs ++ x ∷ [] ≢ []
    snoc-ne-nil [] x e = cc
    snoc-ne-nil (y ∷ xs) x e = cc

clashes-check_flat :
    (l : Flat) (seen : Seen)
    → seen.1 ≡ []
    → Fresh seen (texts l)
    → Distinct (texts l)
    → (check_flat l seen).1 ≡ []
clashes-check_flat [] seen e f d = e
clashes-check_flat ((i, n) ∷ l) seen e f d =
    subst (λ o. (check_flat l (see i n o seen)).1 ≡ []) (sym f.0)
      (clashes-check_flat l (insert n i seen.0, seen.1) e (Fresh-insert i n seen (texts l) f.1 d.0)
        d.1)

Fresh-nil : (ns : List Str) → Fresh ([], []) ns
unfolding Assoc.get
Fresh-nil [] = tt
Fresh-nil (n ∷ ns) = (refl, Fresh-nil ns)

module _ (quote : Str → Str) where
  -- All the names that the inventories declare, as the errors spell them.
  abbrev pub all_names : List Inventory → List Str
  all_names [] = []
  all_names (i ∷ inventories) = names quote i ++ all_names inventories

  flat : ℕ → List Inventory → Flat
  flat index [] = []
  flat index (i ∷ inventories) = tag index (names quote i) ++ flat (suc index) inventories

  texts-flat :
      (index : ℕ) (inventories : List Inventory)
      → texts (flat index inventories) ≡ all_names inventories
  unfolding flat
  texts-flat index [] = refl
  texts-flat index (i ∷ inventories) =
      texts-append (tag index (names quote i)) (flat (suc index) inventories)
      ∙ (ap (λ ns. ns ++ texts (flat (suc index) inventories)) (texts-tag index (names quote i))
          ∙ ap (λ ns. names quote i ++ ns) (texts-flat (suc index) inventories))

  check_each-flat :
      (index : ℕ) (inventories : List Inventory) (seen : Seen)
      → check_each quote index inventories seen ≡ check_flat (flat index inventories) seen
  unfolding check_each flat
  check_each-flat index [] seen = refl
  check_each-flat index (i ∷ inventories) seen =
      check_each-flat (suc index) inventories (check_names index (names quote i) seen)
      ∙ (ap (check_flat (flat (suc index) inventories))
            (check_names-flat index (names quote i) seen)
          ∙ sym (check_flat-append (tag index (names quote i)) (flat (suc index) inventories) seen))

  none-clashes :
      (inventories : List Inventory)
      → (check_collisions quote inventories ≡ none)
        ↔ ((check_each quote 0 inventories ([], [])).1 ≡ [])
  unfolding check_collisions
  none-clashes inventories = (λ h. ground arith, λ h. ground arith)

  -- The check passes exactly where no two declarations, of two services or of one, are spelled alike.
  pub names_exact :
      (inventories : List Inventory)
      → (check_collisions quote inventories ≡ none) ↔ Distinct (all_names inventories)
  names_exact inventories = (
    λ h.
        subst Distinct t
          (check_flat-clashes (flat 0 inventories) ([], [])
            (sym (ap (λ s. s.1) e) ∙ (none-clashes inventories).0 h)).2,
    λ d. (none-clashes inventories).1 (
        ap (λ s. s.1) e
        ∙ clashes-check_flat (flat 0 inventories) ([], []) refl
            (Fresh-nil (texts (flat 0 inventories))) (subst Distinct (sym t) d)),
  )
    where
      e : check_each quote 0 inventories ([], []) ≡ check_flat (flat 0 inventories) ([], [])
      e = check_each-flat 0 inventories ([], [])

      t : texts (flat 0 inventories) ≡ all_names inventories
      t = texts-flat 0 inventories
