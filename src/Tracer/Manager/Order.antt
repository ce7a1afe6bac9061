-- ===== src/Tracer/Manager/Order.antt =====
-- The manager neither loses nor reorders a trace.
use mathlib.Core.List.{append_assoc, append-nil}
use dao_dao_indexer.Prelude.{
  ◌≡◌, refl, ap, ◌∙◌, sym, List, [], ◌∷◌, ◌++◌, leb, length, Bool-cases, inl, inr, ltb, ℕ, ◌*◌, ◌-◌,
  false,
}
use dao_dao_indexer.Tracer.Manager.{
  Worker, Manager, Event, idle, exporting, settled, enqueues, fires, ends, new, next_export,
  ensure_worker, ensure_outbound_queue_worker, move_inbound, process_inbound_queue, enqueue,
  interval_fires, resume_worker, export_ends, step, run,
}

module _ {ℓ} {T : Type ℓ} where
  abbrev pub in_export : Worker T → List T
  in_export idle = []
  in_export (exporting trace) = trace ∷ []
  in_export settled = []

  -- All traces that the manager has been given, oldest first.
  abbrev pub accepted : Manager T → List T
  accepted m =
      m.exported ++ (in_export m.outbound_queue_worker ++ (m.outbound_queue ++ m.inbound_queue))

  -- The traces among the events, oldest first.
  abbrev pub arrivals : List (Event T) → List T
  arrivals [] = []
  arrivals (enqueues trace ∷ es) = trace ∷ arrivals es
  arrivals (fires ∷ es) = arrivals es
  arrivals (ends ∷ es) = arrivals es

  accepted-next_export :
      (m : Manager T) (xs : List T) (over : Worker T)
      → in_export over ≡ []
      → accepted (next_export m xs over) ≡ m.exported ++ (xs ++ m.inbound_queue)
  unfolding next_export
  accepted-next_export m [] over h = rw h
  accepted-next_export m (x ∷ xs) over h = refl

  accepted-ensure_worker :
      (w : Worker T) (m : Manager T)
      → in_export m.outbound_queue_worker ≡ in_export w
      → accepted (ensure_worker w m) ≡ accepted m
  unfolding ensure_worker
  accepted-ensure_worker idle m h = rw h (accepted-next_export m m.outbound_queue settled refl)
  accepted-ensure_worker (exporting trace) m h = refl
  accepted-ensure_worker settled m h = refl

  accepted-ensure : (m : Manager T) → accepted (ensure_outbound_queue_worker m) ≡ accepted m
  unfolding ensure_outbound_queue_worker
  accepted-ensure m = accepted-ensure_worker m.outbound_queue_worker m refl

  accepted-move_inbound :
      (xs : List T) (m : Manager T)
      → accepted (move_inbound xs m)
        ≡ m.exported ++ (in_export m.outbound_queue_worker ++ (m.outbound_queue ++ xs))
  unfolding move_inbound
  accepted-move_inbound [] m = refl
  accepted-move_inbound (x ∷ xs) m =
      elim (Bool-cases (leb m.max_outbound_queue_size (length (m.outbound_queue ++ x ∷ [])))) [
        | inl full ↦ rw full (simp append_assoc)
        | inr room ↦ rw room (
            accepted-move_inbound xs (record m { outbound_queue = m.outbound_queue ++ x ∷ [] })
            ∙ simp append_assoc)
      ]

  accepted-process : (m : Manager T) → accepted (process_inbound_queue m) ≡ accepted m
  unfolding process_inbound_queue
  accepted-process m =
      accepted-ensure (move_inbound m.inbound_queue m) ∙ accepted-move_inbound m.inbound_queue m

  accepted-enqueue : (x : T) (m : Manager T) → accepted (enqueue x m) ≡ accepted m ++ x ∷ []
  unfolding enqueue
  accepted-enqueue x m = elim (Bool-cases m.paused) [
    | inl p ↦ rw p (simp append_assoc)
    | inr q ↦ rw q (
        accepted-process (record m { inbound_queue = m.inbound_queue ++ x ∷ []; paused = false })
        ∙ simp append_assoc)
  ]

  accepted-interval_fires : (m : Manager T) → accepted (interval_fires m) ≡ accepted m
  unfolding interval_fires
  accepted-interval_fires m =
      elim (Bool-cases (ltb (5 * length m.outbound_queue) m.max_outbound_queue_size)) [
        | inl drained ↦
            rw drained (accepted-process (record m { paused = false; intervals = m.intervals - 1 }))
        | inr waits ↦ rw waits refl
      ]

  accepted-resume_worker :
      (w : Worker T) (m : Manager T)
      → m.outbound_queue_worker ≡ w
      → accepted (resume_worker w m) ≡ accepted m
  unfolding resume_worker
  accepted-resume_worker idle m h = refl
  accepted-resume_worker settled m h = refl
  accepted-resume_worker (exporting x) m h =
      accepted-next_export (record m { exported = m.exported ++ x ∷ [] }) m.outbound_queue idle refl
      ∙ rw (ap in_export h) (simp append_assoc)

  accepted-step :
      (e : Event T) (m : Manager T) → accepted (step e m) ≡ accepted m ++ arrivals (e ∷ [])
  unfolding step export_ends
  accepted-step (enqueues x) m = accepted-enqueue x m
  accepted-step fires m = elim (Bool-cases (ltb 0 m.intervals)) [
    | inl live ↦ rw live (accepted-interval_fires m ∙ sym (append-nil _))
    | inr none_live ↦ rw none_live (sym (append-nil _))
  ]
  accepted-step ends m = accepted-resume_worker m.outbound_queue_worker m refl ∙ sym (append-nil _)

  arrivals-cons :
      (e : Event T) (es : List (Event T)) → arrivals (e ∷ es) ≡ arrivals (e ∷ []) ++ arrivals es
  arrivals-cons (enqueues x) es = refl
  arrivals-cons fires es = refl
  arrivals-cons ends es = refl

  accepted-run_from :
      (es : List (Event T)) (m : Manager T) → accepted (run es m) ≡ accepted m ++ arrivals es
  unfolding run
  accepted-run_from [] m = sym (append-nil _)
  accepted-run_from (e ∷ es) m =
      accepted-run_from es (step e m)
      ∙ rw (accepted-step e m) (
          append_assoc (accepted m) (arrivals (e ∷ [])) (arrivals es)
          ∙ ap (λ l. accepted m ++ l) (sym (arrivals-cons e es)))

  -- After any events, the traces that were exported, the one that is being exported, those in the
  -- outbound queue and those in the inbound queue are, in this order, the traces that arrived, in
  -- the order of their arrival: none is lost, doubled or overtaken.
  pub accepted-run : (max : ℕ) (es : List (Event T)) → accepted (run es (new max)) ≡ arrivals es
  unfolding new
  accepted-run max es = accepted-run_from es (new max)
