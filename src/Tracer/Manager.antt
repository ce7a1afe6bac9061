-- ===== src/Tracer/Manager.antt =====
-- src/tracer/clients/TracerManager.ts: the inbound and outbound queues of traces and the worker that
-- exports them.
--
-- A trace is exported by the handlers and the exporter, which are not looked into here: `export`
-- catches what they throw, so that an export only ends. Each step below is what the event loop runs
-- between two awaits. `exported` is a ghost field: the traces whose export has ended.
pub mod Order
pub mod Bounds
pub mod Stall
pub mod Liveness
pub mod Tests
use dao_dao_indexer.Prelude.{
  ℕ, ◌+◌, ◌-◌, ◌*◌, Bool, true, false, List, [], ◌∷◌, ◌++◌, length, leb, ltb, if◌then◌else◌,
}

-- `outboundQueueWorker`: null, the promise of a worker that awaits the export of a trace, or the
-- promise of a worker that has already returned.
pub data Worker {ℓ} (T : Type ℓ) : Type ℓ where
  idle : Worker T
  exporting : T → Worker T
  settled : Worker T

pub record Manager {ℓ} (T : Type ℓ) : Type ℓ where
  pub inbound_queue : List T
  pub outbound_queue : List T
  pub outbound_queue_worker : Worker T
  pub paused : Bool
  -- The live intervals that wait for the outbound queue to drain.
  pub intervals : ℕ
  pub max_outbound_queue_size : ℕ
  pub exported : List T

pub data Event {ℓ} (T : Type ℓ) : Type ℓ where
  -- A trace arrives.
  enqueues : T → Event T
  -- An interval fires.
  fires : Event T
  -- The export that the worker awaits ends.
  ends : Event T

module _ {ℓ} {T : Type ℓ} where
  unfoldable pub new : ℕ → Manager T
  new max = record {
    inbound_queue = [];
    outbound_queue = [];
    outbound_queue_worker = idle;
    paused = false;
    intervals = 0;
    max_outbound_queue_size = max;
    exported = [];
  }

  -- The body of the worker's `while` up to its next await.
  next_export : Manager T → List T → Worker T → Manager T
  next_export m [] over = record m { outbound_queue = []; outbound_queue_worker = over }
  next_export m (trace ∷ rest) over = record m {
    outbound_queue = rest;
    outbound_queue_worker = exporting trace;
  }

  -- The worker runs up to its first await inside the call. With no trace its `finally` clears the
  -- field before the call returns, and the field is then set to the promise that the call returns.
  ensure_worker : Worker T → Manager T → Manager T
  unfolding next_export
  ensure_worker idle m = next_export m m.outbound_queue settled
  ensure_worker (exporting trace) m = m
  ensure_worker settled m = m

  unfoldable pub ensure_outbound_queue_worker : Manager T → Manager T
  unfolding ensure_worker
  ensure_outbound_queue_worker m = ensure_worker m.outbound_queue_worker m

  -- The `while` of `processInboundQueue`, over the traces still inbound.
  move_inbound : List T → Manager T → Manager T
  move_inbound [] m = record m { inbound_queue = [] }
  move_inbound (trace ∷ rest) m =
      let outbound = m.outbound_queue ++ trace ∷ [] in
      let full = record m {
        inbound_queue = rest;
        outbound_queue = outbound;
        paused = true;
        intervals = m.intervals + 1;
      } in
      let onward = move_inbound rest (record m { outbound_queue = outbound }) in
      if leb m.max_outbound_queue_size (length outbound) then full else onward

  unfoldable pub process_inbound_queue : Manager T → Manager T
  unfolding move_inbound ensure_outbound_queue_worker
  process_inbound_queue m = ensure_outbound_queue_worker (move_inbound m.inbound_queue m)

  unfoldable pub enqueue : T → Manager T → Manager T
  unfolding process_inbound_queue
  enqueue trace m =
      let queued = record m { inbound_queue = m.inbound_queue ++ trace ∷ [] } in
      if m.paused then queued else process_inbound_queue queued

  -- The callback of the interval. The size is compared with a fifth of the maximum as a real
  -- number: `n < max / 5` is `5 * n < max`.
  unfoldable pub interval_fires : Manager T → Manager T
  unfolding process_inbound_queue
  interval_fires m =
      if ltb (5 * length m.outbound_queue) m.max_outbound_queue_size
      then process_inbound_queue (record m { paused = false; intervals = m.intervals - 1 })
      else m

  -- The worker resumes after an export, and returns if no trace is left; its `finally` then sets
  -- the field to null.
  resume_worker : Worker T → Manager T → Manager T
  unfolding next_export
  resume_worker idle m = m
  resume_worker settled m = m
  resume_worker (exporting trace) m =
      next_export (record m { exported = m.exported ++ trace ∷ [] }) m.outbound_queue idle

  unfoldable pub export_ends : Manager T → Manager T
  unfolding resume_worker
  export_ends m = resume_worker m.outbound_queue_worker m

  -- An interval fires only while one is live.
  unfoldable pub step : Event T → Manager T → Manager T
  unfolding enqueue interval_fires export_ends
  step (enqueues trace) m = enqueue trace m
  step fires m = if ltb 0 m.intervals then interval_fires m else m
  step ends m = export_ends m

  unfoldable pub run : List (Event T) → Manager T → Manager T
  run [] m = m
  run (e ∷ es) m = run es (step e m)

  unfoldable pub total_queue_size : Manager T → ℕ
  total_queue_size m = length m.inbound_queue + length m.outbound_queue
