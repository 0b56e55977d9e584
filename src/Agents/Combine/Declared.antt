-- ===== src/Agents/Combine/Declared.antt =====
-- What the inventories declare, by kind and name, and when two declarations clash.
use runtime_rs.Base.{
  Distinct, ◌≡◌, ◌≢◌, ◌↔◌, refl, sym, ap, ◌∙◌, subst, List, [], ◌∷◌, ◌++◌, none, Str, codes, All,
  arith, append-left_cancel,
}
use runtime_rs.Agents.Combine.{Inventory, labels, names, check_collisions}
use runtime_rs.Agents.Combine.Clashes.{all_names, names_exact}

pub data Kind : Type 0 where
  tool prompt resource resource_template : Kind

abbrev of_kind : Kind → List Str → List (Kind × Str)
of_kind k [] = []
of_kind k (n ∷ ns) = (k, n) ∷ of_kind k ns

abbrev pub declared : Inventory → List (Kind × Str)
declared i =
    of_kind tool i.tools
    ++ (of_kind prompt i.prompts
        ++ (of_kind resource i.resources ++ of_kind resource_template i.resource_templates))

abbrev pub all_declared : List Inventory → List (Kind × Str)
all_declared [] = []
all_declared (i ∷ inventories) = declared i ++ all_declared inventories

module _ {A B : Type 0} (f : A → B) where
  abbrev images : List A → List B
  images [] = []
  images (x ∷ xs) = f x ∷ images xs

  images-append : (xs ys : List A) → images (xs ++ ys) ≡ images xs ++ images ys
  images-append [] ys = refl
  images-append (x ∷ xs) ys = ap (λ zs. f x ∷ zs) (images-append xs ys)

  module _ (injective : (x y : A) → f x ≡ f y → x ≡ y) where
    others :
        (x : A) (xs : List A)
        → (All (λ y. y ≢ f x) (images xs) → All (λ y. y ≢ x) xs)
          × (All (λ y. y ≢ x) xs → All (λ y. y ≢ f x) (images xs))
    others x [] = (λ h. tt, λ h. tt)
    others x (y ∷ xs) = (
      λ h. (λ e. h.0 (ap f e), (others x xs).0 h.1),
      λ h. (λ e. h.0 (injective y x e), (others x xs).1 h.1),
    )

    Distinct-images : (xs : List A) → Distinct (images xs) ↔ Distinct xs
    Distinct-images [] = (λ h. tt, λ h. tt)
    Distinct-images (x ∷ xs) = (
      λ h. ((others x xs).0 h.0, (Distinct-images xs).0 h.1),
      λ h. ((others x xs).1 h.0, (Distinct-images xs).1 h.1),
    )

module _ (quote : Str → Str) (opens : (n : Str) → (body : Str) × (quote n ≡ 34 ∷ body))
    (injective : (n m : Str) → quote n ≡ quote m → n ≡ m) where
  abbrev word : Kind → Str
  word tool = codes "tool "
  word prompt = codes "prompt "
  word resource = codes "resource "
  word resource_template = codes "resource template "

  abbrev spelled : Kind × Str → Str
  spelled (k, n) = word k ++ quote n

  -- Two words and an opening quote are told apart.
  word-injective : (j k : Kind) (a b : Str) → word j ++ 34 ∷ a ≡ word k ++ 34 ∷ b → j ≡ k
  word-injective tool tool a b e = refl
  word-injective tool prompt a b e = absurd (ground arith)
  word-injective tool resource a b e = absurd (ground arith)
  word-injective tool resource_template a b e = absurd (ground arith)
  word-injective prompt tool a b e = absurd (ground arith)
  word-injective prompt prompt a b e = refl
  word-injective prompt resource a b e = absurd (ground arith)
  word-injective prompt resource_template a b e = absurd (ground arith)
  word-injective resource tool a b e = absurd (ground arith)
  word-injective resource prompt a b e = absurd (ground arith)
  word-injective resource resource a b e = refl
  word-injective resource resource_template a b e = absurd (ground arith)
  word-injective resource_template tool a b e = absurd (ground arith)
  word-injective resource_template prompt a b e = absurd (ground arith)
  word-injective resource_template resource a b e = absurd (ground arith)
  word-injective resource_template resource_template a b e = refl

  spelled-injective : (x y : Kind × Str) → spelled x ≡ spelled y → x ≡ y
  spelled-injective (j, n) (k, m) e =
      let (a, p) = opens n in
      let (b, q) = opens m in
      let same : j ≡ k =
        word-injective j k a b (ap (λ t. word j ++ t) (sym p) ∙ (e ∙ ap (λ t. word k ++ t) q)) in
      let text : word k ++ quote n ≡ word k ++ quote m =
        subst (λ i. word i ++ quote n ≡ word k ++ quote m) same e in
      λ i. (same i, injective n m (append-left_cancel (word k) (quote n) (quote m) text) i)

  labels-images :
      (k : Kind) (ns : List Str) → labels quote (word k) ns ≡ images spelled (of_kind k ns)
  labels-images k [] = refl
  labels-images k (n ∷ ns) = ap (λ ls. (word k ++ quote n) ∷ ls) (labels-images k ns)

  names-images : (i : Inventory) → names quote i ≡ images spelled (declared i)
  names-images i =
      let t = of_kind tool i.tools in
      let p = of_kind prompt i.prompts in
      let r = of_kind resource i.resources in
      let m = of_kind resource_template i.resource_templates in
      ground (
        arith,
        labels-images tool i.tools,
        labels-images prompt i.prompts,
        labels-images resource i.resources,
        labels-images resource_template i.resource_templates,
        images-append spelled t (p ++ (r ++ m)),
        images-append spelled p (r ++ m),
        images-append spelled r m,
      )

  all_names-images :
      (inventories : List Inventory)
      → all_names quote inventories ≡ images spelled (all_declared inventories)
  all_names-images [] = refl
  all_names-images (i ∷ inventories) =
      ap (λ ns. ns ++ all_names quote inventories) (names-images i)
      ∙ (ap (λ ns. images spelled (declared i) ++ ns) (all_names-images inventories)
          ∙ sym (images-append spelled (declared i) (all_declared inventories)))

  -- Let the quoting of a text open with a quotation mark and quote no two texts alike. Then the check
  -- of some inventories for collisions passes exactly where no two of their declarations, of two
  -- services or of one, have both the same kind and the same name.
  pub check_exact :
      (inventories : List Inventory)
      → (check_collisions quote inventories ≡ none) ↔ Distinct (all_declared inventories)
  check_exact inventories =
      let spelling = all_names-images inventories in
      let told = Distinct-images spelled spelled-injective (all_declared inventories) in
      (
        λ h. told.0 (subst Distinct spelling ((names_exact quote inventories).0 h)),
        λ d. (names_exact quote inventories).1 (subst Distinct (sym spelling) (told.1 d)),
      )
