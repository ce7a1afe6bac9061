-- ===== src/Tracer/Exporter/Flow.antt =====
-- What the exporter hands to the queues over a sequence of calls, where no handler has a colon.
use mathlib.Core.List.{append_assoc, append-nil, map-append}
use dao_dao_indexer.Prelude.{
  ℕ, ◌≡◌, refl, sym, ap, ◌∙◌, Bool, true, false, List, [], ◌∷◌, ◌++◌, map, length, Option, none,
  some, Bool-cases, inl, inr, All,
}
use dao_dao_indexer.Tracer.Exporter.{
  BatchItem, Exporter, get_last_block_height, begin_at, begin_export, finish_export, end_export,
  push_items, is_full, schedule_debounce_export, export_batch, is_newer_block, add_items,
  export_items, await_flush,
}
use dao_dao_indexer.Tracer.Exporter.Latest.{HasPlainHandler, handed_for, added_batch-handed_for}

module _ {D : Type 0} where
  abbrev pub concat : List (List (BatchItem D)) → List (BatchItem D)
  concat [] = []
  concat (b ∷ bs) = b ++ concat bs

  concat-append : (cs bs : List (List (BatchItem D))) → concat (cs ++ bs) ≡ concat cs ++ concat bs
  concat-append [] bs = refl
  concat-append (a ∷ cs) bs =
      ap (λ l. a ++ l) (concat-append cs bs) ∙ sym (append_assoc a (concat cs) (concat bs))

  -- The items that were pending and those that were given are, in order, those of some batches and
  -- those that are pending now; and for each of the batches the queues were given its items, less
  -- those that a later item of the batch supersedes.
  pub record Conserves (x : Exporter D) (items : List (BatchItem D)) (y : Exporter D) : Type 0 where
    pub batches : List (List (BatchItem D))
    pub handed : y.added ≡ x.added ++ map handed_for batches
    pub whole : concat batches ++ y.pending_batch ≡ x.pending_batch ++ items

  Conserves-trans :
      {x y z : Exporter D} (cs bs : List (BatchItem D))
      → Conserves x cs y
      → Conserves y bs z
      → Conserves x (cs ++ bs) z
  Conserves-trans {x} {y} {z} cs bs c d = record {
    batches = c.batches ++ d.batches;
    handed =
        d.handed
        ∙ ap (λ l. l ++ map handed_for d.batches) c.handed
        ∙ append_assoc x.added (map handed_for c.batches) (map handed_for d.batches)
        ∙ ap (λ l. x.added ++ l) (sym (map-append handed_for c.batches d.batches));
    whole =
        ap (λ l. l ++ z.pending_batch) (concat-append c.batches d.batches)
        ∙ append_assoc (concat c.batches) (concat d.batches) z.pending_batch
        ∙ ap (λ l. concat c.batches ++ l) d.whole
        ∙ sym (append_assoc (concat c.batches) y.pending_batch bs)
        ∙ ap (λ l. l ++ bs) c.whole
        ∙ append_assoc x.pending_batch cs bs;
  }

  last-none : (batch : List (BatchItem D)) → get_last_block_height batch ≡ none → batch ≡ []
  unfolding get_last_block_height
  last-none [] e = refl
  last-none (item ∷ []) e = cc
  last-none (item ∷ next ∷ items) e = cc (last-none (next ∷ items) e)

  finish_export-Conserves :
      (b : Bool) (height : Option ℕ) (x : Exporter D)
      → All HasPlainHandler x.pending_batch
      → get_last_block_height x.pending_batch ≡ height
      → (finish_export b (begin_at height x)).1 ≡ true
      → Conserves x [] (finish_export b (begin_at height x)).0
  unfolding finish_export begin_at end_export
  finish_export-Conserves b none x plain e h = record {
    batches = [];
    handed = sym (append-nil x.added);
    whole = sym (append-nil x.pending_batch);
  }
  finish_export-Conserves true (some height) x plain e h = record {
    batches = x.pending_batch ∷ [];
    handed = ap (λ b. x.added ++ b ∷ []) (added_batch-handed_for height x.pending_batch plain e);
    whole = append-nil (x.pending_batch ++ []);
  }
  finish_export-Conserves false (some height) x plain e h = cc

  export_batch-Conserves :
      (ok : ℕ → Bool) (x : Exporter D)
      → All HasPlainHandler x.pending_batch
      → (export_batch ok x).1 ≡ true
      → Conserves x [] (export_batch ok x).0
  unfolding export_batch begin_export
  export_batch-Conserves ok x plain h =
      finish_export-Conserves (ok (length x.added)) (get_last_block_height x.pending_batch) x plain
        refl h

  finish_export-empty_of_done :
      (b : Bool) (height : Option ℕ) (x : Exporter D)
      → get_last_block_height x.pending_batch ≡ height
      → (finish_export b (begin_at height x)).1 ≡ true
      → (finish_export b (begin_at height x)).0.pending_batch ≡ []
  unfolding finish_export begin_at end_export
  finish_export-empty_of_done b none x e h = last-none x.pending_batch e
  finish_export-empty_of_done true (some height) x e h = refl
  finish_export-empty_of_done false (some height) x e h = cc

  pub export_batch-empty :
      (ok : ℕ → Bool) (x : Exporter D)
      → (export_batch ok x).1 ≡ true
      → (export_batch ok x).0.pending_batch ≡ []
  unfolding export_batch begin_export
  export_batch-empty ok x h =
      finish_export-empty_of_done (ok (length x.added)) (get_last_block_height x.pending_batch) x
        refl h

  All-append :
      (xs ys : List (BatchItem D))
      → All HasPlainHandler xs
      → All HasPlainHandler ys
      → All HasPlainHandler (xs ++ ys)
  All-append [] ys h k = k
  All-append (x ∷ xs) ys h k = (h.0, All-append xs ys h.1 k)

  push_items-Conserves :
      (items : List (BatchItem D)) (x : Exporter D) (timer : Bool)
      → Conserves x items (record (push_items items x) { debounce_timer = timer })
  unfolding push_items
  push_items-Conserves items x timer = record {
    batches = [];
    handed = sym (append-nil x.added);
    whole = refl;
  }

  add_items-Conserves :
      (ok : ℕ → Bool) (items : List (BatchItem D)) (x : Exporter D)
      → All HasPlainHandler x.pending_batch
      → All HasPlainHandler items
      → (add_items ok items x).1 ≡ true
      → Conserves x items (add_items ok items x).0
  unfolding add_items schedule_debounce_export
  add_items-Conserves ok items x plain h = elim (Bool-cases (is_full (push_items items x))) [
    | inl full ↦ rw full (λ done.
        let pushed = All-append x.pending_batch items plain h in
        rw (append-nil items) at (
          Conserves-trans items [] (push_items-Conserves items x x.debounce_timer)
            (export_batch-Conserves ok (push_items items x) (unfold push_items in pushed) done)))
    | inr room ↦ rw room (λ done. push_items-Conserves items x true)
  ]

  -- After a call of `exportItems` that does not throw, with nothing else running across its awaits
  -- and no colon in a handler, the items that were pending and those that were given are, in order
  -- and each once, those of the batches that were exported and those that are pending now. For each
  -- of these batches the queues were given, with the height of its last item, in order, its items
  -- but those with the handler and the ID of a later item of the batch, and, for the background
  -- queue, those of them with a background handler.
  pub export_items-Conserves :
      (ok : ℕ → Bool) (items : List (BatchItem D)) (current : ℕ) (x : Exporter D)
      → All HasPlainHandler x.pending_batch
      → All HasPlainHandler items
      → (export_items ok items current x).1 ≡ true
      → Conserves x items (export_items ok items current x).0
  unfolding export_items
  export_items-Conserves ok [] current x plain h = λ done. record {
    batches = [];
    handed = sym (append-nil x.added);
    whole = sym (append-nil x.pending_batch);
  }
  export_items-Conserves ok (item ∷ items) current x plain h =
      elim (Bool-cases (is_newer_block current x.pending_batch)) [
        | inl newer ↦ rw newer (elim (Bool-cases (export_batch ok x).1) [
          | inl done ↦
              let none_left : All HasPlainHandler (export_batch ok x).0.pending_batch =
                rw (export_batch-empty ok x done) tt in
              rw done (λ added.
                Conserves-trans [] (item ∷ items) (export_batch-Conserves ok x plain done)
                  (add_items-Conserves ok (item ∷ items) (export_batch ok x).0 none_left h added))
          | inr thrown ↦ rw thrown (λ added. cc)
        ])
        | inr same ↦ rw same (add_items-Conserves ok (item ∷ items) x plain h)
      ]

  finish_export-done :
      (height : Option ℕ) (x : Exporter D) → (finish_export true (begin_at height x)).1 ≡ true
  unfolding finish_export begin_at
  finish_export-done none x = refl
  finish_export-done (some height) x = refl

  finish_export-empty :
      (height : Option ℕ) (x : Exporter D)
      → get_last_block_height x.pending_batch ≡ height
      → (finish_export true (begin_at height x)).0.pending_batch ≡ []
  unfolding finish_export begin_at end_export
  finish_export-empty none x e = last-none x.pending_batch e
  finish_export-empty (some height) x e = refl

  -- A flush whose `add` succeeds leaves no item pending: where no handler has a colon, the queues
  -- were given, in order, what was pending, but the items with the handler and the ID of a later one.
  pub await_flush-empty :
      (ok : ℕ → Bool) (x : Exporter D)
      → All HasPlainHandler x.pending_batch
      → ok (length x.added) ≡ true
      → ((await_flush ok x).0.pending_batch ≡ []) × Conserves x [] (await_flush ok x).0
  unfolding await_flush export_batch begin_export
  await_flush-empty ok x plain h =
      let last = get_last_block_height x.pending_batch in
      rw h (
        finish_export-empty last x refl,
        finish_export-Conserves true last x plain refl (finish_export-done last x),
      )

  -- All items are of one block.
  abbrev pub IsOfBlock : ℕ → List (BatchItem D) → Type 0
  IsOfBlock n = All (λ item. item.block_height ≡ n)

  pub append-IsOfBlock :
      (n : ℕ) (xs ys : List (BatchItem D))
      → IsOfBlock n xs
      → IsOfBlock n ys
      → IsOfBlock n (xs ++ ys)
  append-IsOfBlock n [] ys h k = k
  append-IsOfBlock n (x ∷ xs) ys h k = (h.0, append-IsOfBlock n xs ys h.1 k)

  pub last-IsOfBlock :
      (n : ℕ) (xs : List (BatchItem D)) (x : BatchItem D)
      → IsOfBlock n (x ∷ xs)
      → get_last_block_height (x ∷ xs) ≡ some n
  unfolding get_last_block_height
  last-IsOfBlock n [] x h = ap some h.0
  last-IsOfBlock n (y ∷ ys) x h = last-IsOfBlock n ys y h.1

  finish_export-IsOfBlock :
      (n : ℕ) (b : Bool) (height : Option ℕ) (x : Exporter D)
      → IsOfBlock n x.pending_batch
      → IsOfBlock n (finish_export b (begin_at height x)).0.pending_batch
  unfolding finish_export begin_at end_export
  finish_export-IsOfBlock n b none x h = h
  finish_export-IsOfBlock n true (some height) x h = tt
  finish_export-IsOfBlock n false (some height) x h = h

  pub export_batch-IsOfBlock :
      (n : ℕ) (ok : ℕ → Bool) (x : Exporter D)
      → IsOfBlock n x.pending_batch
      → IsOfBlock n (export_batch ok x).0.pending_batch
  unfolding export_batch begin_export
  export_batch-IsOfBlock n ok x h =
      finish_export-IsOfBlock n (ok (length x.added)) (get_last_block_height x.pending_batch) x h
