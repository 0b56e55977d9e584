-- ===== src/Base/Sorting.antt =====
-- The standard library's stable sort, by insertion: `before` is the order of the keys.
use mathlib.Core.Path.{◌≡◌, refl, sym, ap, ◌∙◌, subst}
use mathlib.Core.Logic.{inl, inr}
use mathlib.Core.Bool.{Bool, true, false}
use mathlib.Core.List.{List, [], ◌∷◌, ◌++◌}
use native.Mathlib.Omega.{arith}
use runtime_rs.Base.Tests.{if◌then◌else◌, Bool-cases}
use runtime_rs.Base.Lists.{All, append-append, append-nil}

module _ {A : Type 0} (before : A → A → Bool) where
  unfoldable pub insert_after : A → List A → List A
  insert_after y [] = y ∷ []
  insert_after y (x ∷ xs) =
      let rest = insert_after y xs in if before y x then y ∷ x ∷ xs else x ∷ rest

  unfoldable pub sort_onto : List A → List A → List A
  unfolding insert_after
  sort_onto sorted [] = sorted
  sort_onto sorted (x ∷ xs) = sort_onto (insert_after x sorted) xs

abbrev pub stable_sort : {A : Type 0} → (A → A → Bool) → List A → List A
stable_sort before = sort_onto before []

module _ {A : Type 0} (before : A → A → Bool) where
  abbrev pub IsOrdered : List A → Type 0
  IsOrdered [] = Unit
  IsOrdered (x ∷ xs) = All (λ z. before z x ≡ false) xs × IsOrdered xs

  pub sort_onto-append :
      (sorted xs ys : List A)
      → sort_onto before sorted (xs ++ ys) ≡ sort_onto before (sort_onto before sorted xs) ys
  unfolding sort_onto
  sort_onto-append sorted [] ys = refl
  sort_onto-append sorted (x ∷ xs) ys = sort_onto-append (insert_after before x sorted) xs ys

  insert_after-last :
      (y : A) (xs : List A)
      → All (λ x. before y x ≡ false) xs
      → insert_after before y xs ≡ xs ++ y ∷ []
  unfolding insert_after
  insert_after-last y [] h = refl
  insert_after-last y (x ∷ xs) (h, k) = rw h (ap (λ ys. x ∷ ys) (insert_after-last y xs k))

  IsOrdered-middle :
      (xs : List A) (y : A) (ys : List A)
      → IsOrdered (xs ++ y ∷ ys)
      → All (λ x. before y x ≡ false) xs
  IsOrdered-middle [] y ys h = tt
  IsOrdered-middle (x ∷ xs) y ys (h, k) =
      (All-middle (λ z. before z x ≡ false) xs y ys h, IsOrdered-middle xs y ys k)
    where
      All-middle : (P : A → Type 0) (xs : List A) (y : A) (ys : List A) → All P (xs ++ y ∷ ys) → P y
      All-middle P [] y ys h = h.0
      All-middle P (x ∷ xs) y ys h = All-middle P xs y ys h.1

  pub sort_onto-ordered :
      (xs ys : List A) → IsOrdered (xs ++ ys) → sort_onto before xs ys ≡ xs ++ ys
  unfolding sort_onto
  sort_onto-ordered xs [] h = sym (append-nil xs)
  sort_onto-ordered xs (y ∷ ys) h =
      ap (λ zs. sort_onto before zs ys) (insert_after-last y xs (IsOrdered-middle xs y ys h))
      ∙ (sort_onto-ordered (xs ++ y ∷ []) ys
            (subst IsOrdered (sym (append-append xs (y ∷ []) ys)) h)
          ∙ append-append xs (y ∷ []) ys)

  pub insert_after-All :
      (P : A → Type 0) (y : A) (xs : List A) → P y → All P xs → All P (insert_after before y xs)
  unfolding insert_after
  insert_after-All P y [] p h = (p, tt)
  insert_after-All P y (x ∷ xs) p (h, k) = elim (Bool-cases (before y x)) [
    | inl earlier ↦ rw earlier (p, (h, k))
    | inr later ↦ rw later (h, insert_after-All P y xs p k)
  ]

  module _ (asym : (a b : A) → before a b ≡ true → before b a ≡ false)
      (trans : (a b c : A) → before a b ≡ true → before b c ≡ true → before a c ≡ true) where
    -- What is not before a later element is not before an earlier one.
    later-All :
        (x y : A) (xs : List A)
        → before y x ≡ true
        → All (λ z. before z x ≡ false) xs
        → All (λ z. before z y ≡ false) xs
    later-All x y [] e h = tt
    later-All x y (z ∷ xs) e (h, k) = (ground (arith, trans z y x), later-All x y xs e k)

    insert_after-IsOrdered :
        (y : A) (xs : List A) → IsOrdered xs → IsOrdered (insert_after before y xs)
    unfolding insert_after
    insert_after-IsOrdered y [] h = (tt, tt)
    insert_after-IsOrdered y (x ∷ xs) (h, k) = elim (Bool-cases (before y x)) [
      | inl earlier ↦ rw earlier ((asym y x earlier, later-All x y xs earlier h), (h, k))
      | inr later ↦
          rw later
            (insert_after-All (λ z. before z x ≡ false) y xs later h, insert_after-IsOrdered y xs k)
    ]

    pub sort_onto-IsOrdered :
        (sorted xs : List A) → IsOrdered sorted → IsOrdered (sort_onto before sorted xs)
    unfolding sort_onto
    sort_onto-IsOrdered sorted [] h = h
    sort_onto-IsOrdered sorted (x ∷ xs) h =
        sort_onto-IsOrdered (insert_after before x sorted) xs (insert_after-IsOrdered x sorted h)
