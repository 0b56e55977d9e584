-- ===== src/Agents/Placement/Groups/Tables.antt =====
-- The table of groups, service by service.
use runtime_rs.Base.{
  ◌≡◌, ◌≢◌, ◌↔◌, ◌⊎◌, ◌||◌, inl, inr, refl, sym, ap, ◌∙◌, subst, if◌then◌else◌, Bool, true, false,
  List, [], ◌∷◌, ◌++◌, Option, some, none, Str, str_eq, str_eq_iff, All, Distinct, Has, arith,
  Bool-cases, append-append, append-nil,
}
use runtime_rs.Base.Assoc
use runtime_rs.Base.Assoc.{Map, get, get-insert, get-remove}
use runtime_rs.Agents.Placement
use runtime_rs.Agents.Placement.{
  Requirements, Config, Group, needs, add, text_less, cons_some, take_out,
}
use runtime_rs.Agents.Placement.Groups.{
  at, is_needed, group_of, spec, or_false, any-snoc, add-group_of, group_of-elsewhere,
  group_of-unneeded,
}

if-some :
    {G : Type 0} (b : Bool) (x g : G) → (if b then some x else none) ≡ some g → (b ≡ true) × (x ≡ g)
if-some true x g e = (refl, ground arith)
if-some false x g e = cc

if-none : {G : Type 0} (b : Bool) (x : G) → (if b then some x else none) ≡ none → b ≡ false
if-none true x e = cc
if-none false x e = refl

Has-snoc : (a b : Str) (l : List Str) → Has a (l ++ b ∷ []) ↔ (Has a l ⊎ (b ≡ a))
Has-snoc a b [] = (
  λ h. elim h [ inl e ↦ inr e | inr n ↦ absurd n ],
  λ h. elim h [ inl n ↦ absurd n | inr e ↦ inl e ],
)
Has-snoc a b (c ∷ l) =
    let ih = Has-snoc a b l in
    (
      λ h. elim h [
        | inl e ↦ inl (inl e)
        | inr k ↦ elim (ih.0 k) [ inl g ↦ inl (inr g) | inr e ↦ inr e ]
      ],
      λ h. elim h [
        | inl k ↦ elim k [ inl e ↦ inl e | inr g ↦ inr (ih.1 (inl g)) ]
        | inr e ↦ inr (ih.1 (inr e))
      ],
    )

Distinct-snoc : (b : Str) (l : List Str) → ¬ (Has b l) → Distinct l → Distinct (l ++ b ∷ [])
Distinct-snoc b [] n d = (tt, tt)
Distinct-snoc b (c ∷ l) n (m, d) = (away l m, Distinct-snoc b l (λ h. n (inr h)) d)
  where
    away : (l : List Str) → All (λ y. y ≢ c) l → All (λ y. y ≢ c) (l ++ b ∷ [])
    away [] m = (λ e. n (inl (sym e)), tt)
    away (y ∷ l) (m, ms) = (m, away l ms)

module _ {S M : Type 0} (requires : S → Requirements) (config : Config M) where
  pub record IsTable (seen : List S) (table : Map (Group S M) × List Str) : Type 0 where
    pub found : (addr : Str) → get addr table.0 ≡ spec requires config seen addr
    pub listed : (addr : Str) → Has addr table.1 ↔ (is_needed requires config addr seen ≡ true)
    pub distinct : Distinct table.1

  spec-step :
      (seen : List S) (s : S) (addr : Str)
      → (if at requires config addr s
          then some (group_of requires config (seen ++ s ∷ []) (needs requires config s))
          else spec requires config seen addr)
        ≡ spec requires config (seen ++ s ∷ []) addr
  spec-step seen s addr = elim (Bool-cases (at requires config addr s)) [
    | inl here ↦ rw here (
        rw (any-snoc requires config (at requires config addr) seen s) (
          rw (here, or_true (is_needed requires config addr seen))
            (ap (λ a. some (group_of requires config (seen ++ s ∷ []) a))
              ((str_eq_iff (needs requires config s) addr).0 here))))
    | inr there ↦ rw there (
        rw (any-snoc requires config (at requires config addr) seen s) (
          rw (there, or_false requires config (is_needed requires config addr seen))
            (ap (λ g. if is_needed requires config addr seen then some g else none)
              (sym (group_of-elsewhere requires config seen s addr there)))))
  ]
    where
      or_true : (b : Bool) → b || true ≡ true
      or_true b = ground arith

  module _ (seen : List S) (s : S) (by_addr : Map (Group S M)) (order : List Str)
      (h : IsTable seen (by_addr, order)) where
    abbrev addr : Str
    addr = needs requires config s

    found-insert :
        (g : Group S M)
        → add requires config s g ≡ group_of requires config (seen ++ s ∷ []) addr
        → (a : Str)
        → get a (Assoc.insert addr (add requires config s g) by_addr)
          ≡ spec requires config (seen ++ s ∷ []) a
    found-insert g e a =
        get-insert addr a (add requires config s g) by_addr
        ∙ (ap (λ o. if str_eq addr a then some (add requires config s g) else o) (h.found a)
            ∙ (ap (λ g. if str_eq addr a then some g else spec requires config seen a) e
                ∙ spec-step seen s a))

    needed_now :
        (a : Str)
        → is_needed requires config a (seen ++ s ∷ [])
          ≡ is_needed requires config a seen || at requires config a s
    needed_now a = any-snoc requires config (at requires config a) seen s

    join-some :
        (g : Group S M)
        → get addr by_addr ≡ some g
        → IsTable (seen ++ s ∷ []) (Assoc.insert addr (add requires config s g) by_addr, order)
    join-some g e = record {
      found =
          found-insert g (ap (add requires config s) same ∙ add-group_of requires config seen s);
      listed = λ a. (
        λ k. needed_now a ∙ ground (arith, (h.listed a).0 k),
        λ k. (h.listed a).1 (already a (sym (needed_now a) ∙ k)),
      );
      distinct = h.distinct;
    }
      where
        there : spec requires config seen addr ≡ some g
        there = sym (h.found addr) ∙ e

        same : g ≡ group_of requires config seen addr
        same =
            sym
              (if-some (is_needed requires config addr seen) (group_of requires config seen addr) g
                there).1

        needed : is_needed requires config addr seen ≡ true
        needed =
            (if-some (is_needed requires config addr seen) (group_of requires config seen addr) g
              there).0

        already :
            (a : Str)
            → is_needed requires config a seen || at requires config a s ≡ true
            → is_needed requires config a seen ≡ true
        already a k = elim (Bool-cases (at requires config a s)) [
          | inl here ↦
              subst (λ a. is_needed requires config a seen ≡ true) ((str_eq_iff addr a).0 here)
                needed
          | inr away ↦ ground arith
        ]

    join-none :
        get addr by_addr ≡ none
        → IsTable (seen ++ s ∷ []) (
          Assoc.insert addr
              (add requires config s (Placement.new_group requires config addr))
              by_addr,
          order ++ addr ∷ [],
        )
    join-none e = record {
      found = found-insert (Placement.new_group requires config addr) (
          ap (add requires config s) (group_of-unneeded requires config seen addr unneeded)
          ∙ add-group_of requires config seen s);
      listed = λ a. (
        λ k. needed_now a ∙ (elim ((Has-snoc a addr order).0 k) [
          | inl old ↦ ground (arith, (h.listed a).0 old)
          | inr new ↦ ground (arith, (str_eq_iff addr a).1 new)
        ]),
        λ k. (Has-snoc a addr order).1 (either a (sym (needed_now a) ∙ k)),
      );
      distinct =
          Distinct-snoc addr order (λ k. ff_ne_tt (sym unneeded ∙ (h.listed addr).0 k)) h.distinct;
    }
      where
        unneeded : is_needed requires config addr seen ≡ false
        unneeded =
            if-none (is_needed requires config addr seen) (group_of requires config seen addr)
              (sym (h.found addr) ∙ e)

        ff_ne_tt : ◌≡◌ {A = Bool} false true → ⊥
        ff_ne_tt e = cc

        either :
            (a : Str)
            → is_needed requires config a seen || at requires config a s ≡ true
            → Has a order ⊎ (addr ≡ a)
        either a k = elim (Bool-cases (is_needed requires config a seen)) [
          | inl old ↦ inl ((h.listed a).1 old)
          | inr no_old ↦ inr ((str_eq_iff addr a).0 (ground arith))
        ]

  join_at-IsTable :
      (seen : List S) (s : S) (table : Map (Group S M) × List Str) (old : Option (Group S M))
      → get (needs requires config s) table.0 ≡ old
      → IsTable seen table
      → IsTable
          (seen ++ s ∷ [])
          (Placement.join_at requires config s (needs requires config s) old table)
  join_at-IsTable seen s (by_addr, order) none e h = join-none seen s by_addr order h e
  join_at-IsTable seen s (by_addr, order) (some g) e h = join-some seen s by_addr order h g e

  pub join_all-IsTable :
      (services seen : List S) (table : Map (Group S M) × List Str)
      → IsTable seen table
      → IsTable (seen ++ services) (Placement.join_all requires config services table)
  unfolding Placement.join_all
  join_all-IsTable [] seen table h = subst (λ l. IsTable l table) (sym (append-nil seen)) h
  join_all-IsTable (s ∷ services) seen table h =
      let t =
        Placement.join_at requires config s (needs requires config s)
          (get (needs requires config s) table.0) table in
      subst (λ l. IsTable l (Placement.join_all requires config services t))
        (append-append seen (s ∷ []) services)
        (join_all-IsTable services (seen ++ s ∷ []) t
          (join_at-IsTable seen s table (get (needs requires config s) table.0) refl h))
