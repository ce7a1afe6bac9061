-- ===== src/Tracer/Manager/Liveness.antt =====
-- The worker stays live as long as no interval fires at a manager that has nothing to export.
use dao_dao_indexer.Prelude.{
  ◌*◌, ◌-◌, ◌≡◌, ◌≢◌, refl, false, List, [], ◌∷◌, ◌++◌, length, leb, ltb, Bool-cases, ◌⊎◌, inl, inr,
  arith,
}
use dao_dao_indexer.Tracer.Manager.{
  Worker, Manager, Event, idle, exporting, settled, enqueues, fires, ends, next_export,
  ensure_worker, ensure_outbound_queue_worker, move_inbound, process_inbound_queue, enqueue,
  interval_fires, resume_worker, export_ends, step,
}
use dao_dao_indexer.Tracer.Manager.Stall.{IsLive}

module _ {ℓ} {T : Type ℓ} where
  -- Something is queued, or a worker is there.
  abbrev pub HasWork : Manager T → Type ℓ
  HasWork m = (m.outbound_queue_worker ≢ idle) ⊎ (m.inbound_queue ≢ []) ⊎ (m.outbound_queue ≢ [])

  -- What `move_inbound` leaves alone, and that it leaves a trace outbound if there was any.
  record IsMoved (xs : List T) (m m' : Manager T) : Type ℓ where
    same_worker : m'.outbound_queue_worker ≡ m.outbound_queue_worker
    queued : (xs ≢ []) ⊎ (m.outbound_queue ≢ []) → m'.outbound_queue ≢ []

  append-ne-nil : (xs : List T) (y : T) → xs ++ y ∷ [] ≢ []
  append-ne-nil [] y e = cc
  append-ne-nil (x ∷ xs) y e = cc

  move_inbound-IsMoved : (xs : List T) (m : Manager T) → IsMoved xs m (move_inbound xs m)
  unfolding move_inbound
  move_inbound-IsMoved [] m = record {
    same_worker = refl;
    queued = elim [ inl h ↦ absurd (h refl) | inr h ↦ h ];
  }
  move_inbound-IsMoved (x ∷ xs) m =
      elim (Bool-cases (leb m.max_outbound_queue_size (length (m.outbound_queue ++ x ∷ [])))) [
        | inl full ↦
            rw full (record { same_worker = refl; queued = λ _. append-ne-nil m.outbound_queue x })
        | inr room ↦
            let next =
              move_inbound-IsMoved xs (record m { outbound_queue = m.outbound_queue ++ x ∷ [] }) in
            rw room (record {
              same_worker = next.same_worker;
              queued = λ _. next.queued (inr (append-ne-nil m.outbound_queue x));
            })
      ]

  ensure_worker-IsLive :
      (w : Worker T) (m : Manager T)
      → m.outbound_queue_worker ≡ w
      → w ≢ settled
      → (w ≡ idle → m.outbound_queue ≢ [])
      → IsLive (ensure_worker w m)
  unfolding ensure_worker next_export
  ensure_worker-IsLive idle m e s o = ground (arith, o refl)
  ensure_worker-IsLive (exporting x) m e s o = ground arith
  ensure_worker-IsLive settled m e s o = absurd (s refl)

  process-IsLive :
      (m : Manager T)
      → m.outbound_queue_worker ≢ settled
      → HasWork m
      → IsLive (process_inbound_queue m)
  unfolding process_inbound_queue ensure_outbound_queue_worker
  process-IsLive m s work =
      let moved = move_inbound-IsMoved m.inbound_queue m in
      let m' = move_inbound m.inbound_queue m in
      ensure_worker-IsLive m'.outbound_queue_worker m' refl (rw moved.same_worker s) (λ e.
        elim work [
          | inl busy ↦ absurd (busy (rw (← moved.same_worker) e))
          | inr any ↦ moved.queued any
        ])

  next_export-IsLive : (m : Manager T) (xs : List T) → IsLive (next_export m xs idle)
  unfolding next_export
  next_export-IsLive m [] = (λ e. cc, λ e. refl)
  next_export-IsLive m (x ∷ xs) = (λ e. cc, λ e. cc)

  resume_worker-IsLive :
      (w : Worker T) (m : Manager T)
      → m.outbound_queue_worker ≡ w
      → IsLive m
      → IsLive (resume_worker w m)
  unfolding resume_worker
  resume_worker-IsLive idle m e live = live
  resume_worker-IsLive settled m e live = absurd (live.0 e)
  resume_worker-IsLive (exporting x) m e live =
      next_export-IsLive (record m { exported = m.exported ++ x ∷ [] }) m.outbound_queue

  -- A live worker stays live over every event but an interval that fires while both queues are
  -- empty and no worker is there.
  pub step-IsLive :
      (e : Event T) (m : Manager T) → (e ≡ fires → HasWork m) → IsLive m → IsLive (step e m)
  unfolding step enqueue interval_fires export_ends
  step-IsLive (enqueues x) m work live = elim (Bool-cases m.paused) [
    | inl p ↦ rw p live
    | inr q ↦ rw q (
        process-IsLive (record m { inbound_queue = m.inbound_queue ++ x ∷ []; paused = false })
          live.0 (inr (inl (append-ne-nil m.inbound_queue x))))
  ]
  step-IsLive fires m work live = elim (Bool-cases (ltb 0 m.intervals)) [
    | inl on ↦
        rw on (elim (Bool-cases (ltb (5 * length m.outbound_queue) m.max_outbound_queue_size)) [
          | inl low ↦ rw low (
              process-IsLive (record m { paused = false; intervals = m.intervals - 1 }) live.0
                (work refl))
          | inr high ↦ rw high live
        ])
    | inr off ↦ rw off live
  ]
  step-IsLive ends m work live = resume_worker-IsLive m.outbound_queue_worker m refl live
