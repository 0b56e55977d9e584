-- ===== src/Agents/Placement/Groups/Exact.antt =====
-- The groups of a runtime: one for each address that a service needs, with the services that need it.
use runtime_rs.Base.{
  ◌≡◌, ◌≢◌, ◌↔◌, inl, inr, refl, sym, ap, ◌∙◌, true, List, [], ◌∷◌, map, some, Str, str_eq_iff, All,
  Distinct, Has, arith,
}
use runtime_rs.Base.Assoc
use runtime_rs.Base.Assoc.{Map, get, get-insert, get-remove}
use runtime_rs.Base.Sorting.{stable_sort}
use runtime_rs.Agents.Placement
use runtime_rs.Agents.Placement.{
  Requirements, Config, Group, needs, add, text_less, cons_some, take_out,
}
use runtime_rs.Agents.Placement.Ordering.{
  IsIncreasing, stable_sort-Has, stable_sort-Distinct, stable_sort-IsIncreasing,
}
use runtime_rs.Agents.Placement.Groups.{group_of, is_needed}
use runtime_rs.Agents.Placement.Groups.Tables.{IsTable, join_all-IsTable}

take_out-map :
    {G : Type 0} (f : Str → G) (order : List Str) (by_addr : Map G)
    → Distinct order
    → All (λ a. get a by_addr ≡ some (f a)) order
    → take_out order by_addr ≡ map f order
unfolding take_out
take_out-map f [] by_addr d h = refl
take_out-map f (a ∷ order) by_addr (n, d) (h, hs) =
    ap (λ o. cons_some o (take_out order (Assoc.remove a by_addr))) h
    ∙ ap (λ l. f a ∷ l) (take_out-map f order (Assoc.remove a by_addr) d (rest order n hs))
  where
    rest :
        (l : List Str)
        → All (λ b. b ≢ a) l
        → All (λ b. get b by_addr ≡ some (f b)) l
        → All (λ b. get b (Assoc.remove a by_addr) ≡ some (f b)) l
    rest [] n h = tt
    rest (b ∷ l) (n, ns) (h, hs) = (
      get-remove a b by_addr ∙ ground (arith, str_eq_iff a b, λ (e : a ≡ b). n (sym e)),
      rest l ns hs,
    )

All-of_Has : (P : Str → Type 0) (l : List Str) → ((a : Str) → Has a l → P a) → All P l
All-of_Has P [] h = tt
All-of_Has P (a ∷ l) h = (h a (inl refl), All-of_Has P l (λ b k. h b (inr k)))

module _ {S M : Type 0} (requires : S → Requirements) (config : Config M) where
  -- The groups are those of a strictly increasing list of addresses, which are exactly the ones that
  -- some service needs: no two groups have one address, and the group of an address holds the
  -- services that need it, in their order, wants HTTP if one of them does, and is not owned by the
  -- runtime exactly where the host brings a router and the address is the shared one.
  pub group_exact :
      (services : List S)
      → (addrs : List Str) × (Placement.group requires config services
          ≡ map (group_of requires config services) addrs)
        × IsIncreasing addrs
        × ((a : Str) → Has a addrs ↔ (is_needed requires config a services ≡ true))
  unfolding Placement.group get
  group_exact services =
      let (by_addr, order) = Placement.join_all requires config services ([], []) in
      let t : IsTable requires config services (by_addr, order) =
        join_all-IsTable requires config services [] ([], [])
          (record { found = λ a. refl; listed = λ a. (λ h. absurd h, λ e. cc); distinct = tt }) in
      let sorted = stable_sort text_less order in
      (
        sorted,
        take_out-map (group_of requires config services) sorted by_addr
            (stable_sort-Distinct order t.distinct)
            (All-of_Has _ sorted
              (λ a h. t.found a ∙ rw ((t.listed a).0 ((stable_sort-Has a order).0 h)) refl)),
        stable_sort-IsIncreasing order t.distinct,
        λ a. (
          λ h. (t.listed a).0 ((stable_sort-Has a order).0 h),
          λ e. (stable_sort-Has a order).1 ((t.listed a).1 e),
        ),
      )
