-- ===== src/Agents/Placement/Ordering.antt =====
-- Sorting addresses: the order of texts, and what stays when a list is sorted.
use runtime_rs.Base.{
  Distinct, Has, ◌==◌, ==_iff, ◌≡◌, ◌≢◌, ◌⊎◌, ◌↔◌, inl, inr, refl, sym, ap, ◌∙◌, true, false, List,
  [], ◌∷◌, Str, All, arith, Bool-cases,
}
use runtime_rs.Base.Sorting.{
  insert_after, insert_after-All, sort_onto, stable_sort, IsOrdered, sort_onto-IsOrdered,
}
use runtime_rs.Agents.Placement.{text_less}

pub text_less_asym : (a b : Str) → text_less a b ≡ true → text_less b a ≡ false
unfolding text_less
text_less_asym [] [] e = ground arith
text_less_asym [] (b ∷ t) e = refl
text_less_asym (a ∷ s) [] e = ground arith
text_less_asym (a ∷ s) (b ∷ t) e = ground (arith, text_less_asym s t)

pub text_less_trans :
    (a b c : Str) → text_less a b ≡ true → text_less b c ≡ true → text_less a c ≡ true
unfolding text_less
text_less_trans [] [] c e f = ground arith
text_less_trans [] (b ∷ t) [] e f = ground arith
text_less_trans [] (b ∷ t) (c ∷ u) e f = refl
text_less_trans (a ∷ s) [] c e f = ground arith
text_less_trans (a ∷ s) (b ∷ t) [] e f = ground arith
text_less_trans (a ∷ s) (b ∷ t) (c ∷ u) e f = ground (arith, text_less_trans s t u)

pub text_less_total : (a b : Str) → text_less a b ≡ false → b ≢ a → text_less b a ≡ true
unfolding text_less
text_less_total [] [] e n = absurd (n refl)
text_less_total [] (b ∷ t) e n = ground arith
text_less_total (a ∷ s) [] e n = refl
text_less_total (a ∷ s) (b ∷ t) e n = elim (Bool-cases (a == b)) [
  | inl same ↦
      let p : a ≡ b = (==_iff a b).0 same in
      let later : text_less t s ≡ true =
        text_less_total s t (ground arith) (λ q. n (ap (λ c. c ∷ t) (sym p) ∙ ap (λ u. a ∷ u) q)) in
      ground arith
  | inr other ↦ ground arith
]

-- Each text is less than all that come later; so no two are equal.
abbrev pub IsIncreasing : List Str → Type 0
IsIncreasing [] = Unit
IsIncreasing (a ∷ l) = All (λ b. text_less a b ≡ true) l × IsIncreasing l

module _ (a b : Str) where
  apart :
      (c : Str) (l k : List Str)
      → (Has a l → (b ≡ a) ⊎ Has a k)
      → Has a (c ∷ l)
      → (b ≡ a) ⊎ Has a (c ∷ k)
  apart c l k f (inl e) = inr (inl e)
  apart c l k f (inr h) = elim (f h) [ inl e ↦ inl e | inr g ↦ inr (inr g) ]

  together :
      (c : Str) (l k : List Str)
      → ((b ≡ a) ⊎ Has a k → Has a l)
      → (b ≡ a) ⊎ Has a (c ∷ k)
      → Has a (c ∷ l)
  together c l k f (inl e) = inr (f (inl e))
  together c l k f (inr (inl e)) = inl e
  together c l k f (inr (inr h)) = inr (f (inr h))

  insert_after-Has : (l : List Str) → Has a (insert_after text_less b l) ↔ ((b ≡ a) ⊎ Has a l)
  unfolding insert_after
  insert_after-Has [] = (λ h. h, λ h. h)
  insert_after-Has (c ∷ l) =
      let ih = insert_after-Has l in
      elim (Bool-cases (text_less b c)) [
        | inl earlier ↦ rw earlier (λ h. h, λ h. h)
        | inr later ↦ rw later (
          apart c (insert_after text_less b l) l ih.0,
          together c (insert_after text_less b l) l ih.1,
        )
      ]

sort_onto-Has :
    (a : Str) (sorted l : List Str)
    → Has a (sort_onto text_less sorted l) ↔ (Has a sorted ⊎ Has a l)
unfolding sort_onto
sort_onto-Has a sorted [] = (inl, λ h. elim h [ inl g ↦ g | inr g ↦ absurd g ])
sort_onto-Has a sorted (b ∷ l) =
    let ih = sort_onto-Has a (insert_after text_less b sorted) l in
    let k = insert_after-Has a b sorted in
    (
      λ h. elim (ih.0 h) [
        | inl g ↦ elim (k.0 g) [ inl e ↦ inr (inl e) | inr s ↦ inl s ]
        | inr t ↦ inr (inr t)
      ],
      λ h. elim h [
        | inl g ↦ ih.1 (inl (k.1 (inr g)))
        | inr t ↦ elim t [ inl e ↦ ih.1 (inl (k.1 (inl e))) | inr u ↦ ih.1 (inr u) ]
      ],
    )

-- What is sorted holds the same texts.
pub stable_sort-Has : (a : Str) (l : List Str) → Has a (stable_sort text_less l) ↔ Has a l
stable_sort-Has a l =
    let h = sort_onto-Has a [] l in
    (λ g. elim (h.0 g) [ inl n ↦ absurd n | inr k ↦ k ], λ g. h.1 (inr g))

insert_after-Distinct :
    (b : Str) (l : List Str)
    → All (λ c. c ≢ b) l
    → Distinct l
    → Distinct (insert_after text_less b l)
unfolding insert_after
insert_after-Distinct b [] n d = (tt, tt)
insert_after-Distinct b (c ∷ l) (m, n) (g, d) = elim (Bool-cases (text_less b c)) [
  | inl earlier ↦ rw earlier ((m, n), (g, d))
  | inr later ↦ rw later (
    insert_after-All text_less (λ x. x ≢ c) b l (λ e. m (sym e)) g,
    insert_after-Distinct b l n d,
  )
]

sort_onto-Distinct :
    (sorted l : List Str)
    → Distinct sorted
    → Distinct l
    → All (λ b. All (λ c. c ≢ b) sorted) l
    → Distinct (sort_onto text_less sorted l)
unfolding sort_onto
sort_onto-Distinct sorted [] s d n = s
sort_onto-Distinct sorted (b ∷ l) s (g, d) (m, n) =
    sort_onto-Distinct (insert_after text_less b sorted) l (insert_after-Distinct b sorted m s) d
      (apart_from l g n)
  where
    apart_from :
        (l : List Str)
        → All (λ c. c ≢ b) l
        → All (λ x. All (λ c. c ≢ x) sorted) l
        → All (λ x. All (λ c. c ≢ x) (insert_after text_less b sorted)) l
    apart_from [] g n = tt
    apart_from (x ∷ l) (g, gs) (n, ns) =
        (insert_after-All text_less (λ c. c ≢ x) b sorted (λ e. g (sym e)) n, apart_from l gs ns)

pub stable_sort-Distinct : (l : List Str) → Distinct l → Distinct (stable_sort text_less l)
stable_sort-Distinct l d = sort_onto-Distinct [] l tt d (nothing l)
  where
    nothing : (l : List Str) → All (λ b. All (λ c. c ≢ b) []) l
    nothing [] = tt
    nothing (b ∷ l) = (tt, nothing l)

pub stable_sort-IsIncreasing : (l : List Str) → Distinct l → IsIncreasing (stable_sort text_less l)
stable_sort-IsIncreasing l d =
    increasing (stable_sort text_less l)
      (sort_onto-IsOrdered text_less text_less_asym text_less_trans [] l tt)
      (stable_sort-Distinct l d)
  where
    first :
        (a : Str) (l : List Str)
        → All (λ z. text_less z a ≡ false) l
        → All (λ z. z ≢ a) l
        → All (λ z. text_less a z ≡ true) l
    first a [] o n = tt
    first a (z ∷ l) (o, os) (n, ns) = (text_less_total z a o (λ e. n (sym e)), first a l os ns)

    increasing : (l : List Str) → IsOrdered text_less l → Distinct l → IsIncreasing l
    increasing [] o d = tt
    increasing (a ∷ l) (o, os) (n, ns) = (first a l o n, increasing l os ns)
