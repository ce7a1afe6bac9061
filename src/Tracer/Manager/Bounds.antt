-- ===== src/Tracer/Manager/Bounds.antt =====
-- The outbound queue stays within its limit, and the manager is paused exactly while an interval
-- is live.
use dao_dao_indexer.Prelude.{
  ℕ, ◌-◌, ◌*◌, ◌≤◌, ◌<◌, ◌≡◌, refl, false, List, [], ◌∷◌, ◌++◌, length, length-append, leb, ltb,
  Bool-cases, inl, inr, arith, if◌then◌else◌,
}
use dao_dao_indexer.Tracer.Manager.{
  Worker, Manager, Event, idle, exporting, settled, enqueues, fires, ends, new, next_export,
  ensure_worker, ensure_outbound_queue_worker, move_inbound, process_inbound_queue, enqueue,
  interval_fires, resume_worker, export_ends, step, run,
}

module _ {ℓ} {T : Type ℓ} where
  -- With the maximum as a parameter, since no step changes it.
  pub record IsBounded (max : ℕ) (m : Manager T) : Type ℓ where
    pub limit : m.max_outbound_queue_size ≡ max
    pub within : length m.outbound_queue ≤ max
    pub room : m.paused ≡ false → length m.outbound_queue < max
    pub drained : m.paused ≡ false → m.inbound_queue ≡ []
    pub counted : m.intervals ≡ (if m.paused then 1 else 0)

  next_export-IsBounded :
      (max : ℕ) (m : Manager T) (xs : List T) (over : Worker T)
      → length xs ≤ length m.outbound_queue
      → 0 < max
      → IsBounded max m
      → IsBounded max (next_export m xs over)
  unfolding next_export
  next_export-IsBounded max m [] over h p v = ground arith
  next_export-IsBounded max m (x ∷ xs) over h p v = ground arith

  ensure_worker-IsBounded :
      (max : ℕ) (w : Worker T) (m : Manager T)
      → 0 < max
      → IsBounded max m
      → IsBounded max (ensure_worker w m)
  unfolding ensure_worker
  ensure_worker-IsBounded max idle m p v =
      next_export-IsBounded max m m.outbound_queue settled (omega arith) p v
  ensure_worker-IsBounded max (exporting x) m p v = v
  ensure_worker-IsBounded max settled m p v = v

  move_inbound-IsBounded :
      (max : ℕ) (xs : List T) (m : Manager T)
      → m.max_outbound_queue_size ≡ max
      → m.paused ≡ false
      → m.intervals ≡ 0
      → length m.outbound_queue < max
      → IsBounded max (move_inbound xs m)
  unfolding move_inbound
  move_inbound-IsBounded max [] m h p i r = ground arith
  move_inbound-IsBounded max (x ∷ xs) m h p i r =
      elim (Bool-cases (leb m.max_outbound_queue_size (length (m.outbound_queue ++ x ∷ [])))) [
        | inl full ↦ rw full (ground (arith, length-append m.outbound_queue (x ∷ [])))
        | inr more ↦ rw more (
            move_inbound-IsBounded max xs (record m { outbound_queue = m.outbound_queue ++ x ∷ [] })
              h p i (ground (arith, length-append m.outbound_queue (x ∷ []))))
      ]

  process-IsBounded :
      (max : ℕ) (m : Manager T)
      → m.max_outbound_queue_size ≡ max
      → m.paused ≡ false
      → m.intervals ≡ 0
      → length m.outbound_queue < max
      → IsBounded max (process_inbound_queue m)
  unfolding process_inbound_queue ensure_outbound_queue_worker
  process-IsBounded max m h p i r =
      let moved = move_inbound-IsBounded max m.inbound_queue m h p i r in
      ensure_worker-IsBounded max (move_inbound m.inbound_queue m).outbound_queue_worker
        (move_inbound m.inbound_queue m) (omega arith) moved

  enqueue-IsBounded :
      (max : ℕ) (x : T) (m : Manager T) → IsBounded max m → IsBounded max (enqueue x m)
  unfolding enqueue
  enqueue-IsBounded max x m v = elim (Bool-cases m.paused) [
    | inl p ↦ rw p (ground arith)
    | inr q ↦ rw q (
        process-IsBounded max
          (record m { inbound_queue = m.inbound_queue ++ x ∷ []; paused = false }) v.limit refl
          (ground arith) (v.room q))
  ]

  interval_fires-IsBounded :
      (max : ℕ) (m : Manager T)
      → 0 < m.intervals
      → IsBounded max m
      → IsBounded max (interval_fires m)
  unfolding interval_fires
  interval_fires-IsBounded max m live v =
      elim (Bool-cases (ltb (5 * length m.outbound_queue) m.max_outbound_queue_size)) [
        | inl low ↦ rw low (
            process-IsBounded max (record m { paused = false; intervals = m.intervals - 1 }) v.limit
              refl (ground arith) (ground arith))
        | inr high ↦ rw high v
      ]

  resume_worker-IsBounded :
      (max : ℕ) (w : Worker T) (m : Manager T)
      → 0 < max
      → IsBounded max m
      → IsBounded max (resume_worker w m)
  unfolding resume_worker
  resume_worker-IsBounded max idle m p v = v
  resume_worker-IsBounded max settled m p v = v
  resume_worker-IsBounded max (exporting x) m p v =
      next_export-IsBounded max (record m { exported = m.exported ++ x ∷ [] }) m.outbound_queue idle
        (omega arith) p
        (record {
          limit = v.limit;
          within = v.within;
          room = v.room;
          drained = v.drained;
          counted = v.counted;
        })

  pub step-IsBounded :
      (max : ℕ) (e : Event T) (m : Manager T) → 0 < max → IsBounded max m → IsBounded max (step e m)
  unfolding step export_ends
  step-IsBounded max (enqueues x) m p v = enqueue-IsBounded max x m v
  step-IsBounded max fires m p v = elim (Bool-cases (ltb 0 m.intervals)) [
    | inl live ↦ rw live (interval_fires-IsBounded max m (ground arith) v)
    | inr over ↦ rw over v
  ]
  step-IsBounded max ends m p v = resume_worker-IsBounded max m.outbound_queue_worker m p v

  run_from-IsBounded :
      (max : ℕ) (es : List (Event T)) (m : Manager T)
      → 0 < max
      → IsBounded max m
      → IsBounded max (run es m)
  unfolding run
  run_from-IsBounded max [] m p v = v
  run_from-IsBounded max (e ∷ es) m p v =
      run_from-IsBounded max es (step e m) p (step-IsBounded max e m p v)

  -- Where the maximum is positive, after any events: the outbound queue holds at most the maximum
  -- and fewer while the manager is not paused, the inbound queue is empty while it is not paused,
  -- and one interval is live exactly while it is paused.
  pub run-IsBounded : (max : ℕ) (es : List (Event T)) → 0 < max → IsBounded max (run es (new max))
  unfolding new
  run-IsBounded max es p = run_from-IsBounded max es (new max) p (ground arith)
