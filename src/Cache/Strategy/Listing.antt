-- ===== src/Cache/Strategy/Listing.antt =====
-- Every value that can be read by its id is listed.
use runtime_rs.Base.{
  ℕ, ◌+◌, ◌≤◌, ◌≡◌, refl, sym, ◌∙◌, ap, if◌then◌else◌, Bool, true, false, List, [], ◌∷◌, none, some,
  Str, Bytes, str_eq, str_eq_iff, arith, Bool-cases, inl, inr, subst,
}
use runtime_rs.Base.Assoc
use runtime_rs.Base.Assoc.{get-remove}
use runtime_rs.Cache.Outcome.{
  Outcome, Exec, ok, err, panic, proceed, pure, raise, ◌>>=◌, ◌>>◌, not_found,
}
use runtime_rs.Cache.Memory
use runtime_rs.Cache.Memory.{Entry, World}
use runtime_rs.Cache.Memory.View.{alive, view, occupied, check_time}
use runtime_rs.Cache.Memory.Frames.{set-OnlyAt, replace-OnlyAt}
use runtime_rs.Cache.Memory.Writes.{delete_exact, replace_needs_entry}
use runtime_rs.Cache.Sets as Process
use runtime_rs.Cache.Sets.{contains, members_of}
use runtime_rs.Cache.Sets.Members.{contains-set_add, contains-set_remove}
use runtime_rs.Cache.Keyspace.{Keyspace}
use runtime_rs.Cache.Policy.{Options}
use runtime_rs.Cache.Strategy
use runtime_rs.Cache.Strategy.{
  DocumentImpl, DocumentLayout, entry_key, index_key, resolve_ttl, resolve_id,
}
use runtime_rs.Cache.Strategy.OnMemory
use runtime_rs.Cache.Strategy.OnMemory.{Shared, impl, entry_key-str_eq}

pub proceed_keeps :
    {S A B : Type 0} (b : B) (r : Outcome A) (s : S) → (proceed r (λ _ s. (ok b, s)) s).1 ≡ s
proceed_keeps b (ok a) s = refl
proceed_keeps b (err e) s = refl
proceed_keeps b panic s = refl

module _ (ks : Keyspace) (layout : DocumentLayout) (default_ttl : ℕ) (require_ttl : Bool)
    (iterate : List Str → List Str) (fresh_id : Shared → Str) where
  abbrev d : DocumentImpl Shared
  d = impl ks layout default_ttl require_ttl iterate fresh_id

  -- Every id whose entry is live at the time t0 or later is a member of the index.
  abbrev pub IsListed : ℕ → Shared → Type 0
  IsListed t0 s =
      (id : Str) (t : ℕ)
      → t0 ≤ t
      → occupied (view t s.0 (entry_key d id)) ≡ true
      → contains id (members_of (index_key d) s.1) ≡ true

  -- The id that `create` uses.
  abbrev chosen : Options → Shared → Str
  chosen opts s = elim opts.id [ some id ↦ id | none ↦ fresh_id s ]

  id_resolved : (opts : Options) (s : Shared) → resolve_id d opts s ≡ (ok (chosen opts s), s)
  unfolding resolve_id
  id_resolved opts s = ground arith

  abbrev answer_replaced : Bool → Exec Shared Unit
  answer_replaced replaced = if replaced then pure tt else raise not_found

  answer_keeps : (r : Outcome Bool) (s : Shared) → (proceed r answer_replaced s).1 ≡ s
  answer_keeps (ok true) s = refl
  answer_keeps (ok false) s = refl
  answer_keeps (err e) s = refl
  answer_keeps panic s = refl

  module _ (t0 : ℕ) where
    stored-IsListed :
        (id : Str) (v : Bytes) (ttl : ℕ) (s : Shared)
        → IsListed t0 s
        → IsListed t0 (
          (Memory.set (entry_key d id) v ttl s.0).1,
          (Process.set_add (index_key d) (id ∷ []) s.1).1,
        )
    stored-IsListed id v ttl s h j t late seen = elim (Bool-cases (str_eq id j)) [
      | inl same ↦ ground (arith, contains-set_add j id (index_key d) s.1, same)
      | inr other ↦
          let unchanged =
            set-OnlyAt (entry_key d id) v ttl s.0 (entry_key d j)
              (entry_key-str_eq d id j ∙ other) in
          ground (
            arith,
            contains-set_add j id (index_key d) s.1,
            other,
            h j t late (ap (λ e. occupied (alive t e)) (sym unchanged) ∙ seen),
          )
    ]

    deleted-IsListed :
        (id : Str) (s : Shared)
        → IsListed t0 s
        → IsListed t0 (
          (Memory.delete (entry_key d id ∷ []) s.0).1,
          (Process.set_remove (index_key d) (id ∷ []) s.1).1,
        )
    deleted-IsListed id s h j t late seen = ground (
      arith,
      contains-set_remove j id (index_key d) s.1,
      entry_key-str_eq d id j,
      h j t late,
      (delete_exact (entry_key d id ∷ []) s.0 t (entry_key d j)).1,
      seen,
    )

    abbrev enlisted : Str → Shared → Shared
    enlisted id s = (s.0, (Process.set_add (index_key d) (id ∷ []) s.1).1)

    enlisted-IsListed : (id : Str) (s : Shared) → IsListed t0 s → IsListed t0 (enlisted id s)
    enlisted-IsListed id s h j t late seen =
        ground (arith, contains-set_add j id (index_key d) s.1, h j t late seen)

    -- What `create` does once `set_add` has answered.
    abbrev stores : Bytes → ℕ → Str → Unit {0} → Exec Shared Str
    stores v ttl id done = do d.driver.set (entry_key d id) v ttl; pure id

    published-IsListed :
        (v : Bytes) (ttl : ℕ) (id : Str) (answered : Outcome Unit) (added : Bool) (s : Shared)
        → (answered ≡ ok tt → added ≡ true)
        → IsListed t0 s
        → IsListed t0 (proceed answered (stores v ttl id) (if added then enlisted id s else s)).1
    unfolding Process.set_add
    published-IsListed v ttl id (ok done) true s true_answer h =
        subst (IsListed t0)
          (sym (proceed_keeps id (d.driver.set (entry_key d id) v ttl (enlisted id s)).0 _))
          (stored-IsListed id v ttl s h)
    published-IsListed v ttl id (ok done) false s true_answer h =
        absurd (ground (arith, true_answer refl))
    published-IsListed v ttl id (err e) true s true_answer h = enlisted-IsListed id s h
    published-IsListed v ttl id (err e) false s true_answer h = h
    published-IsListed v ttl id panic true s true_answer h = enlisted-IsListed id s h
    published-IsListed v ttl id panic false s true_answer h = h

    replaced-IsListed :
        (id : Str) (v : Bytes) (ttl : ℕ) (s : Shared)
        → ((n : ℕ) → s.0.reads ≤ n → t0 ≤ s.0.clock n)
        → IsListed t0 s
        → IsListed t0 ((Memory.replace (entry_key d id) v ttl s.0).1, s.1)
    replaced-IsListed id v ttl s later h j t late seen = elim (Bool-cases (str_eq id j)) [
      | inl same ↦ elim (replace_needs_entry (entry_key d id) v ttl s.0) [
        | inl kept ↦
            h j t late
              (ap (λ m. occupied (alive t (Assoc.get (entry_key d j) m))) (sym kept) ∙ seen)
        | inr there ↦
            subst (λ i. contains i (members_of (index_key d) s.1) ≡ true) ((str_eq_iff id j).0 same)
              (h id (check_time s.0 ttl) (ground (arith, later s.0.reads, later (s.0.reads + 1)))
                there)
      ]
      | inr other ↦
          let unchanged =
            replace-OnlyAt (entry_key d id) v ttl s.0 (entry_key d j)
              (entry_key-str_eq d id j ∙ other) in
          h j t late (ap (λ e. occupied (alive t e)) (sym unchanged) ∙ seen)
    ]

    update_resolved-IsListed :
        (r : Outcome ℕ) (id : Str) (v : Bytes) (s : Shared)
        → ((n : ℕ) → s.0.reads ≤ n → t0 ≤ s.0.clock n)
        → IsListed t0 s
        → IsListed t0
            (proceed r (λ ttl. d.driver.replace (entry_key d id) v ttl >>= answer_replaced) s).1
    update_resolved-IsListed (ok ttl) id v s later h =
        subst (IsListed t0) (sym (answer_keeps (d.driver.replace (entry_key d id) v ttl s).0 _))
          (replaced-IsListed id v ttl s later h)
    update_resolved-IsListed (err e) id v s later h = h
    update_resolved-IsListed panic id v s later h = h

  -- The strategy where a `set_add` may fail or panic, before or after it has added the member.
  module _ (answer : Shared → Outcome {0} Unit) (adds : Shared → Bool)
      (true_answer : (s : Shared) → answer s ≡ ok tt → adds s ≡ true) where
    abbrev pub unreliable : DocumentImpl Shared
    unreliable = record d {
      sets = some (record (OnMemory.sets ks layout default_ttl require_ttl iterate fresh_id) {
        set_add = λ k ids s. (answer s, if adds s then (s.0, (Process.set_add k ids s.1).1) else s);
      });
    }

    publishes : ℕ → Bytes → ℕ → Str → Exec Shared Str
    publishes t0 v ttl id = Strategy.enlist unreliable id >>= stores t0 v ttl id

    publishes-IsListed :
        (t0 : ℕ) (v : Bytes) (ttl : ℕ) (id : Str) (s : Shared)
        → IsListed t0 s
        → IsListed t0 (publishes t0 v ttl id s).1
    unfolding publishes Strategy.enlist Strategy.index_key
    publishes-IsListed t0 v ttl id s h =
        published-IsListed t0 v ttl id (answer s) (adds s) s (true_answer s) h

    unreliable_resolved :
        (opts : Options) (s : Shared) → resolve_id unreliable opts s ≡ (ok (chosen opts s), s)
    unfolding resolve_id
    unreliable_resolved opts s = ground arith

    resolved-IsListed :
        (t0 : ℕ) (r : Outcome ℕ) (v : Bytes) (opts : Options) (s : Shared)
        → IsListed t0 s
        → IsListed t0 (proceed r (λ ttl. resolve_id unreliable opts >>= publishes t0 v ttl) s).1
    resolved-IsListed t0 (ok ttl) v opts s h =
        subst (λ p. IsListed t0 (proceed p.0 (publishes t0 v ttl) p.1).1)
          (sym (unreliable_resolved opts s)) (publishes-IsListed t0 v ttl (chosen opts s) s h)
    resolved-IsListed t0 (err e) v opts s h = h
    resolved-IsListed t0 panic v opts s h = h

    -- Over the memory driver and the sets of one process, let any `set_add` fail or panic, before or
    -- after it has added the member, as long as it reports no success where it has not. Where every id
    -- that is live from some time on is listed, it is so after a `create`, however it ends.
    pub create-IsListed :
        (t0 : ℕ) (value : Bytes) (opts : Options) (s : Shared)
        → IsListed t0 s
        → IsListed t0 (Strategy.create unreliable value opts s).1
    unfolding Strategy.create publishes Strategy.entry_key
    create-IsListed t0 value opts s h =
        resolved-IsListed t0 (resolve_ttl unreliable opts) value opts s h

  -- The same of an `update`, where the clock shows no earlier time than that.
  pub update-IsListed :
      (t0 : ℕ) (id : Str) (value : Bytes) (opts : Options) (s : Shared)
      → ((n : ℕ) → s.0.reads ≤ n → t0 ≤ s.0.clock n)
      → IsListed t0 s
      → IsListed t0 (Strategy.update d id value opts s).1
  unfolding Strategy.update
  update-IsListed t0 id value opts s later h =
      update_resolved-IsListed t0 (resolve_ttl d opts) id value s later h

  -- The same of a `delete`.
  pub delete-IsListed :
      (t0 : ℕ) (id : Str) (s : Shared) → IsListed t0 s → IsListed t0 (Strategy.delete d id s).1
  unfolding Strategy.delete Strategy.unlist
  delete-IsListed t0 id s h =
      subst
        (λ r.
          IsListed t0
            (proceed r (λ _. Strategy.unlist d id)
              ((Memory.delete (entry_key d id ∷ []) s.0).1, s.1)).1)
        (sym (delete_exact (entry_key d id ∷ []) s.0 0 []).0) (deleted-IsListed t0 id s h)
