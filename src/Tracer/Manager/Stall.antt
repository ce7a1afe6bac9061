-- ===== src/Tracer/Manager/Stall.antt =====
-- When the worker of the manager goes on exporting, and when it stops for good.
use mathlib.Core.List.{append_assoc, append-nil}
use dao_dao_indexer.Prelude.{
  ℕ, zero, suc, ◌*◌, ◌-◌, ◌<◌, ◌≡◌, ◌≢◌, refl, sym, ap, ◌∙◌, false, List, [], ◌∷◌, ◌++◌, length,
  leb, ltb, Bool-cases, inl, inr, arith, replicate,
}
use dao_dao_indexer.Tracer.Manager.{
  Worker, Manager, Event, idle, exporting, settled, enqueues, fires, ends, next_export,
  ensure_worker, ensure_outbound_queue_worker, move_inbound, process_inbound_queue, enqueue,
  interval_fires, resume_worker, export_ends, step, run,
}
use dao_dao_indexer.Tracer.Manager.Order.{in_export}

module _ {ℓ} {T : Type ℓ} where
  -- The field holds the promise of a worker that has returned, and `done` was exported.
  abbrev IsStuckAt : List T → Manager T → Type ℓ
  IsStuckAt done m = (m.outbound_queue_worker ≡ settled) × (m.exported ≡ done)

  move_inbound-IsStuckAt :
      (done : List T) (xs : List T) (m : Manager T)
      → IsStuckAt done m
      → IsStuckAt done (move_inbound xs m)
  unfolding move_inbound
  move_inbound-IsStuckAt done [] m h = h
  move_inbound-IsStuckAt done (x ∷ xs) m h =
      elim (Bool-cases (leb m.max_outbound_queue_size (length (m.outbound_queue ++ x ∷ [])))) [
        | inl full ↦ rw full h
        | inr room ↦ rw room (
            move_inbound-IsStuckAt done xs
              (record m { outbound_queue = m.outbound_queue ++ x ∷ [] }) h)
      ]

  process-IsStuckAt :
      (done : List T) (m : Manager T) → IsStuckAt done m → IsStuckAt done (process_inbound_queue m)
  unfolding process_inbound_queue ensure_outbound_queue_worker ensure_worker
  process-IsStuckAt done m h =
      let k = move_inbound-IsStuckAt done m.inbound_queue m h in rw (k.0, ensure_worker) k

  step-IsStuckAt :
      (done : List T) (e : Event T) (m : Manager T) → IsStuckAt done m → IsStuckAt done (step e m)
  unfolding step enqueue interval_fires export_ends resume_worker
  step-IsStuckAt done (enqueues x) m h = elim (Bool-cases m.paused) [
    | inl p ↦ rw p h
    | inr q ↦ rw q (
        process-IsStuckAt done
          (record m { inbound_queue = m.inbound_queue ++ x ∷ []; paused = false }) h)
  ]
  step-IsStuckAt done fires m h =
      let resumed =
        process-IsStuckAt done (record m { paused = false; intervals = m.intervals - 1 }) h in
      elim (Bool-cases (ltb 0 m.intervals)) [
        | inl live ↦
            rw live
              (elim (Bool-cases (ltb (5 * length m.outbound_queue) m.max_outbound_queue_size)) [
                | inl low ↦ rw low resumed
                | inr high ↦ rw high h
              ])
        | inr over ↦ rw over h
      ]
  step-IsStuckAt done ends m h = rw (h.0, resume_worker) (refl, h.1)

  run-IsStuckAt :
      (done : List T) (es : List (Event T)) (m : Manager T)
      → IsStuckAt done m
      → IsStuckAt done (run es m)
  unfolding run
  run-IsStuckAt done [] m h = h
  run-IsStuckAt done (e ∷ es) m h = run-IsStuckAt done es (step e m) (step-IsStuckAt done e m h)

  fires-IsStuckAt :
      (m : Manager T)
      → m.inbound_queue ≡ []
      → m.outbound_queue ≡ []
      → m.outbound_queue_worker ≡ idle
      → 0 < m.intervals
      → 0 < m.max_outbound_queue_size
      → IsStuckAt m.exported (step fires m)
  unfolding step interval_fires process_inbound_queue ensure_outbound_queue_worker ensure_worker
  fires-IsStuckAt m i o w live pos = ground arith

  -- If an interval fires when both queues are empty and the worker is null, where the maximum is
  -- positive, then no trace is ever exported again, whatever events follow.
  pub exported-run_stalled :
      (m : Manager T) (later : List (Event T))
      → m.inbound_queue ≡ []
      → m.outbound_queue ≡ []
      → m.outbound_queue_worker ≡ idle
      → 0 < m.intervals
      → 0 < m.max_outbound_queue_size
      → (run (fires ∷ later) m).exported ≡ m.exported
  unfolding run
  exported-run_stalled m later i o w live pos =
      (run-IsStuckAt m.exported later (step fires m) (fires-IsStuckAt m i o w live pos)).1

  -- The worker is not a returned one, and awaits an export while a trace is outbound.
  abbrev pub IsLive : Manager T → Type ℓ
  IsLive m =
      (m.outbound_queue_worker ≢ settled) × (m.outbound_queue_worker ≡ idle → m.outbound_queue ≡ [])

  after_export : Manager T → T → T → List T → Manager T
  after_export m x y rest = record m {
    exported = m.exported ++ x ∷ [];
    outbound_queue = rest;
    outbound_queue_worker = exporting y;
  }

  -- Each end of an export starts the next one.
  step-ends :
      (m : Manager T) (x y : T) (rest : List T)
      → m.outbound_queue_worker ≡ exporting x
      → m.outbound_queue ≡ y ∷ rest
      → step ends m ≡ after_export m x y rest
  unfolding step export_ends resume_worker next_export after_export
  step-ends m x y rest w o = ground arith

  step-ends_idle : (m : Manager T) → m.outbound_queue_worker ≡ idle → step ends m ≡ m
  unfolding step export_ends resume_worker
  step-ends_idle m h = ground arith

  abbrev IsDrained : List T → Manager T → Type ℓ
  IsDrained all m = (m.exported ≡ all) × (m.outbound_queue ≡ []) × (m.outbound_queue_worker ≡ idle)

  step-ends_last :
      (m : Manager T) (x : T)
      → m.outbound_queue_worker ≡ exporting x
      → m.outbound_queue ≡ []
      → IsDrained (m.exported ++ x ∷ []) (step ends m)
  unfolding step export_ends resume_worker next_export
  step-ends_last m x w o = ground arith

  drain_from :
      (rest : List T) (m : Manager T) (x : T)
      → m.outbound_queue_worker ≡ exporting x
      → m.outbound_queue ≡ rest
      → IsDrained (m.exported ++ x ∷ rest) (run (replicate (suc (length rest)) ends) m)
  unfolding run after_export
  drain_from [] m x w o = step-ends_last m x w o
  drain_from (y ∷ rest) m x w o =
      let (a, b, c) = drain_from rest (after_export m x y rest) y refl refl in
      rw (step-ends m x y rest w o, run) (a ∙ append_assoc m.exported (x ∷ []) (y ∷ rest), b, c)

  run-ends_idle :
      (n : ℕ) (m : Manager T) → m.outbound_queue_worker ≡ idle → run (replicate n ends) m ≡ m
  unfolding run
  run-ends_idle zero m h = refl
  run-ends_idle (suc n) m h = ap (run (replicate n ends)) (step-ends_idle m h) ∙ run-ends_idle n m h

  drain_worker :
      (w : Worker T) (m : Manager T)
      → m.outbound_queue_worker ≡ w
      → IsLive m
      → IsDrained
          (m.exported ++ (in_export w ++ m.outbound_queue))
          (run (replicate (suc (length m.outbound_queue)) ends) m)
  drain_worker idle m e live =
      let o = live.1 e in
      simp (run-ends_idle (suc (length m.outbound_queue)) m e)
        (sym (ap (λ l. m.exported ++ l) o ∙ append-nil m.exported), o, e)
  drain_worker (exporting x) m e live = drain_from m.outbound_queue m x e refl
  drain_worker settled m e live = absurd (live.0 e)

  -- Where the worker is live, one more end of an export than there are outbound traces leaves the
  -- outbound queue empty and the worker null, with every outbound trace exported in order.
  pub exported-run_drained :
      (m : Manager T)
      → IsLive m
      → let m' = run (replicate (suc (length m.outbound_queue)) ends) m in
        (m'.exported ≡ m.exported ++ (in_export m.outbound_queue_worker ++ m.outbound_queue))
        × (m'.outbound_queue ≡ [])
        × (m'.outbound_queue_worker ≡ idle)
  exported-run_drained m live = drain_worker m.outbound_queue_worker m refl live
