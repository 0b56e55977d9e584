-- ===== src/Database/Arrow/Filter/Pages.antt =====
-- The page after an offset is what sorting all matching rows would give, and is found in little memory.
use runtime_rs.Base.{
  ℕ, ◌+◌, ◌*◌, ◌-◌, ◌^◌, ◌%◌, ◌<◌, leb, ◌≡◌, ◌≤◌, refl, sym, ap, ◌∙◌, subst, if◌then◌else◌, ltb,
  Bool, true, false, List, [], ◌∷◌, ◌++◌, some, none, arith, Bool-cases, inl, inr, length,
  length-append, append-append, append-nil,
}
use runtime_rs.Base.Assoc.{Map}
use runtime_rs.Base.Sorting.{sort_onto, stable_sort, sort_onto-append}
use runtime_rs.Database.Arrow.Heap.{take, length-take}
use runtime_rs.Database.Arrow.Gather.{filter}
use runtime_rs.Database.Arrow.Filter
use runtime_rs.Database.Arrow.Filter.{
  Json, Resource, Range, has_more, keep, by_time, drop, Top, saturating_add,
}
use runtime_rs.Database.Arrow.Filter.Sizes.{wrapped_small, length-page, next_exact}
use runtime_rs.Database.Arrow.Filter.Sorted.{take-take, drop-min, take-sort_onto, sort-take-sort}

-- The rows of all batches, in their order.
abbrev pub concat : {A : Type 0} → List (List A) → List A
concat [] = []
concat (rows ∷ batches) = rows ++ concat batches

module _ {A : Type 0} (test : A → Bool) where
  filter-append : (xs ys : List A) → filter test (xs ++ ys) ≡ filter test xs ++ filter test ys
  filter-append [] ys = refl
  filter-append (x ∷ xs) ys = elim (Bool-cases (test x)) [
    | inl through ↦ rw through (ap (λ zs. x ∷ zs) (filter-append xs ys))
    | inr stopped ↦ rw stopped (filter-append xs ys)
  ]

  module _ (before : A → A → Bool) (asym : (a b : A) → before a b ≡ true → before b a ≡ false)
      (trans : (a b c : A) → before a b ≡ true → before b c ≡ true → before a c ≡ true) (limit : ℕ)
      (offset : ℕ) where
    abbrev pub bound : ℕ
    bound = saturating_add offset limit

    abbrev pub best : List A → List A
    best rows = take bound (stable_sort before rows)

    -- What a `Top` stands for after the rows `seen`.
    pub record Stands (seen : List A) (top : Top A) : Type 0 where
      pub found : best top.kept ≡ best (filter test seen)
      pub counted : top.matched ≡ length (filter test seen)
      pub small : length top.kept ≤ 2 * bound

    best-append : (xs ys : List A) → best (xs ++ ys) ≡ take bound (sort_onto before (best xs) ys)
    best-append xs ys =
        ap (take bound) (sort_onto-append before [] xs ys)
        ∙ sym (take-sort_onto before bound (stable_sort before xs) ys)

    best-grown : (xs zs ys : List A) → best xs ≡ best zs → best (xs ++ ys) ≡ best (zs ++ ys)
    best-grown xs zs ys e =
        best-append xs ys
        ∙ (ap (λ b. take bound (sort_onto before b ys)) e ∙ sym (best-append zs ys))

    if-Stands :
        (b : Bool) (seen : List A) (x y : Top A)
        → Stands seen x
        → (b ≡ false → Stands seen y)
        → Stands seen (if b then x else y)
    if-Stands true seen x y h k = h
    if-Stands false seen x y h k = k refl

    compact-Stands :
        (seen : List A) (top : Top A)
        → best top.kept ≡ best (filter test seen)
        → top.matched ≡ length (filter test seen)
        → Stands seen (Filter.compact test before limit offset top)
    unfolding Filter.compact Filter.keep_count
    compact-Stands seen top f c = record {
      found =
          ap (take bound) (sort-take-sort before asym trans bound top.kept)
          ∙ (take-take bound (stable_sort before top.kept) ∙ f);
      counted = c;
      small = omega (arith, length-take bound (stable_sort before top.kept));
    }

    push-Stands :
        (seen rows : List A) (top : Top A)
        → Stands seen top
        → Stands (seen ++ rows) (Filter.push test before limit offset rows top)
    unfolding Filter.push Filter.keep_count
    push-Stands seen rows top h =
        let grown : Top A = record {
          kept = top.kept ++ filter test rows;
          matched = top.matched + (length (top.kept ++ filter test rows) - length top.kept);
        } in
        if-Stands (ltb ((2 * bound) % 2 ^ 64) (length grown.kept)) (seen ++ rows)
          (Filter.compact test before limit offset grown) grown
          (compact-Stands (seen ++ rows) grown found counted)
          (λ e. record { found = found; counted = counted; small = fits e })
      where
        fits :
            ltb ((2 * bound) % 2 ^ 64) (length (top.kept ++ filter test rows)) ≡ false
            → length (top.kept ++ filter test rows) ≤ 2 * bound
        fits e = ground (arith, e, wrapped_small (2 * bound))

        found : best (top.kept ++ filter test rows) ≡ best (filter test (seen ++ rows))
        found =
            best-grown top.kept (filter test seen) (filter test rows) h.found
            ∙ ap best (sym (filter-append seen rows))

        counted :
            top.matched + (length (top.kept ++ filter test rows) - length top.kept)
            ≡ length (filter test (seen ++ rows))
        counted = omega (
          arith,
          h.counted,
          length-append top.kept (filter test rows),
          length-append (filter test seen) (filter test rows),
          ap length (filter-append seen rows),
        )

    push_all-Stands :
        (batches : List (List A)) (seen : List A) (top : Top A)
        → Stands seen top
        → Stands (seen ++ concat batches) (Filter.push_all test before limit offset batches top)
    unfolding Filter.push_all
    push_all-Stands [] seen top h = subst (λ l. Stands l top) (sym (append-nil seen)) h
    push_all-Stands (rows ∷ batches) seen top h =
        subst
          (λ l. Stands l (
            Filter.push_all test before limit offset batches
              (Filter.push test before limit offset rows top)))
          (append-append seen rows (concat batches))
          (push_all-Stands batches (seen ++ rows) (Filter.push test before limit offset rows top)
            (push-Stands seen rows top h))

    pub streamed-Stands :
        (batches : List (List A))
        → Stands
            (concat batches)
            (Filter.push_all test before limit offset batches (Filter.new test before limit offset))
    unfolding Filter.new
    streamed-Stands batches =
        push_all-Stands batches [] _ (record { found = refl; counted = refl; small = omega arith })

    abbrev pub page_of : List A → List A
    page_of rows = drop offset (best (filter test rows))

    finish_lem :
        (seen : List A) (top : Top A)
        → Stands seen top
        → Filter.finish test before limit offset top ≡ (page_of seen, length (filter test seen))
    unfolding Filter.finish Filter.compact Filter.keep_count
    finish_lem seen top h =
        λ i. ((drop-min offset (best top.kept) ∙ ap (drop offset) h.found) i, h.counted i)

    pub page_at_offset_lem :
        (batches : List (List A))
        → Filter.page_at_offset test before limit offset batches ≡ (
          page_of (concat batches),
          if has_more
                ((offset + length (page_of (concat batches))) % 2 ^ 64)
                (length (filter test (concat batches)))
              then some ((offset + length (page_of (concat batches))) % 2 ^ 64)
              else none,
          length (filter test (concat batches)),
        )
    unfolding Filter.page_at_offset
    page_at_offset_lem batches =
        ap
          (λ (r : List A × ℕ).
            let next = (offset + length r.0) % 2 ^ 64 in
            (r.0, if has_more next r.1 then some next else none, r.1))
          (finish_lem (concat batches) _ (streamed-Stands batches))

module _ {V : Type 0} (json : Json V) (res : Resource) (range : Range V) where
  by_time_asym :
      (a b : Map V) → by_time json res range a b ≡ true → by_time json res range b a ≡ false
  by_time_asym a b e = ground arith

  by_time_trans :
      (a b c : Map V)
      → by_time json res range a b ≡ true
      → by_time json res range b c ≡ true
      → by_time json res range a c ≡ true
  by_time_trans a b c e f = ground arith

  -- The rows that the window keeps, and its page after an offset: where a stable sort by time of all
  -- those rows has it.
  abbrev pub matching : List (List (Map V)) → List (Map V)
  matching batches = filter (keep json res range) (concat batches)

  abbrev pub sorted_page : ℕ → List (List (Map V)) → List (Map V)
  sorted_page offset batches = drop offset (
      take (saturating_add offset range.limit)
        (stable_sort (by_time json res range) (matching batches)))

  -- Let the offset be a usize, and let the number of the rows that the window keeps fit an i64. Then
  -- the page after the offset, kept while batches stream in and cut whenever it grows, is the page that
  -- a stable sort by time of all these rows has there; and the total is their number. Below 2^63 there
  -- is a next offset exactly where the page ends before the total; from 2^63 on the next offset is the
  -- offset itself.
  pub offset_page_exact :
      (offset : ℕ) (batches : List (List (Map V)))
      → offset < 2 ^ 64
      → length (matching batches) < 2 ^ 63
      → Filter.page_at_offset
          (keep json res range)
          (by_time json res range)
          range.limit
          offset
          batches
        ≡ (
          sorted_page offset batches,
          if leb (2 ^ 63) offset
              then some offset
              else if ltb (offset + length (sorted_page offset batches)) (length (matching batches))
              then some (offset + length (sorted_page offset batches))
              else none,
          length (matching batches),
        )
  offset_page_exact offset batches fits small =
      page_at_offset_lem (keep json res range) (by_time json res range) by_time_asym by_time_trans
        range.limit offset batches
      ∙ ap (λ next. (sorted_page offset batches, next, length (matching batches)))
          (next_exact offset (length (sorted_page offset batches)) (length (matching batches)) fits
            small
            (length-page (by_time json res range) offset (saturating_add offset range.limit)
              (matching batches)))

  -- However many rows stream in, what is kept between two batches is at most twice the offset and
  -- the page size together.
  pub kept_bounded :
      (offset : ℕ) (batches : List (List (Map V)))
      → length
          (Filter.push_all
            (keep json res range)
            (by_time json res range)
            range.limit
            offset
            batches
            (Filter.new (keep json res range) (by_time json res range) range.limit offset)).kept
        ≤ 2 * (offset + range.limit)
  kept_bounded offset batches = omega (
    arith,
    (streamed-Stands (keep json res range) (by_time json res range) by_time_asym by_time_trans
        range.limit offset batches).small,
  )
