-- ===== src/Tracer/Manager/Tests.antt =====
-- Runs of the queue of src/tracer/clients/TracerManager.ts.
use dao_dao_indexer.Prelude.{ℕ, ◌≡◌, refl, true, List, [], ◌∷◌, replicate, arith, inl}
use dao_dao_indexer.Tracer.Manager.{
  idle, exporting, Manager, Event, enqueues, fires, ends, new, step, run,
}
use dao_dao_indexer.Tracer.Manager.Order.{accepted, arrivals, accepted-run}
use dao_dao_indexer.Tracer.Manager.Bounds.{IsBounded, run-IsBounded}
use dao_dao_indexer.Tracer.Manager.Stall.{IsLive, exported-run_stalled, exported-run_drained}
use dao_dao_indexer.Tracer.Manager.Liveness.{step-IsLive}

-- The second trace fills the outbound queue behind the one that is exported, and the interval
-- resumes after the queue has drained.
abbrev busy_events : List (Event ℕ)
busy_events = enqueues 1 ∷ enqueues 2 ∷ enqueues 3 ∷ enqueues 4 ∷ ends ∷ ends ∷ ends ∷ fires ∷ []

abbrev idle_manager : Manager ℕ
idle_manager = record {
  inbound_queue = [];
  outbound_queue = [];
  outbound_queue_worker = idle;
  paused = true;
  intervals = 1;
  max_outbound_queue_size = 2;
  exported = 1 ∷ 2 ∷ [];
}

abbrev busy_manager : Manager ℕ
busy_manager = record {
  inbound_queue = 4 ∷ [];
  outbound_queue = 2 ∷ 3 ∷ [];
  outbound_queue_worker = exporting 1;
  paused = true;
  intervals = 1;
  max_outbound_queue_size = 2;
  exported = [];
}

busy_events-exported : (run busy_events (new 2)).exported ≡ 1 ∷ 2 ∷ 3 ∷ []
unfolding run new step
busy_events-exported = refl

accepted-run_example : accepted (run busy_events (new 2)) ≡ arrivals busy_events
accepted-run_example = accepted-run 2 busy_events

run-IsBounded_example : IsBounded 2 (run busy_events (new 2))
run-IsBounded_example = run-IsBounded 2 busy_events (omega arith)

exported-run_stalled_example :
    (run (fires ∷ enqueues 3 ∷ ends ∷ []) idle_manager).exported ≡ 1 ∷ 2 ∷ []
exported-run_stalled_example =
    exported-run_stalled idle_manager (enqueues 3 ∷ ends ∷ []) refl refl refl (omega arith)
      (omega arith)

busy_manager-IsLive : IsLive busy_manager
busy_manager-IsLive = (λ e. cc e, λ e. absurd (cc e))

exported-run_drained_example :
    let m = run (replicate 3 ends) busy_manager in
    (m.exported ≡ 1 ∷ 2 ∷ 3 ∷ []) × (m.outbound_queue ≡ []) × (m.outbound_queue_worker ≡ idle)
exported-run_drained_example = exported-run_drained busy_manager busy_manager-IsLive

step-IsLive_example : IsLive (step fires busy_manager)
step-IsLive_example = step-IsLive fires busy_manager (λ e. inl (λ k. cc k)) busy_manager-IsLive
