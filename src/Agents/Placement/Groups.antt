-- ===== src/Agents/Placement/Groups.antt =====
-- The group of an address: what it is made of, and what one service more changes.
pub mod Tables
pub mod Exact
use runtime_rs.Base.{
  ℕ, ◌≡◌, ◌≢◌, ◌↔◌, ◌⊎◌, ◌||◌, ◌&&◌, not, inl, inr, refl, sym, ap, ◌∙◌, subst, if◌then◌else◌, Bool,
  true, false, List, [], ◌∷◌, ◌++◌, map, Option, some, none, Str, str_eq, str_eq_iff, str_eq_refl,
  All, Distinct, Has, any, arith, Bool-cases, append-append, append-nil,
}
use runtime_rs.Base.Assoc
use runtime_rs.Base.Assoc.{Map, get, get-insert, get-remove}
use runtime_rs.Base.Sorting.{stable_sort}
use runtime_rs.Agents.Placement
use runtime_rs.Agents.Placement.{
  Requirements, Config, Group, needs, add, text_less, cons_some, take_out,
}
use runtime_rs.Agents.Placement.Ordering.{
  IsIncreasing, stable_sort-Has, stable_sort-Distinct, stable_sort-IsIncreasing,
}

module _ {S M : Type 0} (requires : S → Requirements) (config : Config M) where
  abbrev pub at : Str → S → Bool
  at addr s = str_eq (needs requires config s) addr

  -- The services that need an address, in their order.
  abbrev pub those : Str → List S → List S
  those addr [] = []
  those addr (s ∷ services) = if at addr s then s ∷ those addr services else those addr services

  abbrev pub is_needed : Str → List S → Bool
  is_needed addr services = any (at addr) services

  abbrev pub is_some : Option M → Bool
  is_some none = false
  is_some (some _) = true

  -- The group of an address: its services, and HTTP if one of them wants it. It stands on the host's
  -- router, and is not the runtime's own, where there is one and the address is the shared one.
  abbrev pub group_of : List S → Str → Group S M
  group_of services addr = record {
    addr = addr;
    listen = addr;
    mux = if str_eq addr (Placement.shared requires config) then config.mux else none;
    services = those addr services;
    http = any (λ s. (requires s).http) (those addr services);
    owned = not (is_some config.mux && str_eq addr (Placement.shared requires config));
  }

  abbrev pub spec : List S → Str → Option (Group S M)
  spec services addr = if is_needed addr services then some (group_of services addr) else none

  pub or_false : (b : Bool) → b || false ≡ b
  or_false b = ground arith

  pub or_assoc : (a b c : Bool) → (a || b) || c ≡ a || (b || c)
  or_assoc a b c = ground arith

  pub any-snoc :
      (p : S → Bool) (services : List S) (s : S)
      → any p (services ++ s ∷ []) ≡ any p services || p s
  any-snoc p [] s = or_false (p s)
  any-snoc p (t ∷ services) s =
      ap (λ b. p t || b) (any-snoc p services s) ∙ sym (or_assoc (p t) (any p services) (p s))

  pub those-snoc :
      (addr : Str) (services : List S) (s : S)
      → those addr (services ++ s ∷ [])
        ≡ (if at addr s then those addr services ++ s ∷ [] else those addr services)
  those-snoc addr [] s = refl
  those-snoc addr (t ∷ services) s = ground (arith, those-snoc addr services s)

  pub those-unneeded :
      (addr : Str) (services : List S) → is_needed addr services ≡ false → those addr services ≡ []
  those-unneeded addr [] e = refl
  those-unneeded addr (t ∷ services) e = ground (arith, those-unneeded addr services)

  -- A service that joins its group makes it the group of one service more.
  pub add-group_of :
      (services : List S) (s : S)
      → add requires config s (group_of services (needs requires config s))
        ≡ group_of (services ++ s ∷ []) (needs requires config s)
  add-group_of services s =
      let addr = needs requires config s in
      let here : those addr (services ++ s ∷ []) ≡ those addr services ++ s ∷ [] =
        those-snoc addr services s ∙ rw (str_eq_refl addr) refl in
      λ i. record (group_of [] addr) {
        services = sym here i;
        http =
            (sym (any-snoc (λ s. (requires s).http) (those addr services) s)
                ∙ ap (any (λ s. (requires s).http)) (sym here))
              i;
      }

  pub group_of-elsewhere :
      (services : List S) (s : S) (addr : Str)
      → at addr s ≡ false
      → group_of (services ++ s ∷ []) addr ≡ group_of services addr
  group_of-elsewhere services s addr e =
      ap (λ l. record (group_of [] addr) { services = l; http = any (λ s. (requires s).http) l })
        (those-snoc addr services s ∙ rw e refl)

  new_group_lem : (addr : Str) → Placement.new_group requires config addr ≡ group_of [] addr
  unfolding Placement.new_group
  new_group_lem addr = ground arith

  pub group_of-unneeded :
      (services : List S) (addr : Str)
      → is_needed addr services ≡ false
      → Placement.new_group requires config addr ≡ group_of services addr
  group_of-unneeded services addr e =
      new_group_lem addr
      ∙ ap (λ l. record (group_of [] addr) { services = l; http = any (λ s. (requires s).http) l })
          (sym (those-unneeded addr services e))
