-- ===== src/Lib.antt =====
-- A model of the parts of the indexer that carry its own logic, with the theorems that make them
-- correct. The indexer traces the state of a chain, queues and exports what it traces, and computes
-- formulas over the events in its database, at one block or over a range of blocks.
--
-- The parts, the code that they model, and how they interact:
--
-- - Tracer: the intake of traces. Tracer/Manager models src/tracer/clients/TracerManager.ts: its
--   queues, pausing and worker are a state, and what the event loop runs between two awaits is a
--   step of `run`. Tracer/Exporter models src/tracer/clients/BatchedTraceExporter.ts, which the
--   manager calls with the items of a trace: `exportBatch` is cut at its await into `begin_export`
--   and `end_export`, and `export_items` is `exportItems` with nothing else running across its
--   awaits; it may itself run across the await of an export that the timer has begun.
-- - Formulas: the evaluation of formulas. Formulas/Events models `addToCache` and
--   `getNextPotentialBlock` of src/formulas/compute.ts, with which a range is computed: the first
--   caches the events that are current at a block, the second finds the next block at which
--   something may change. Formulas/Compute models `compute` and `computeRange` themselves, with the
--   `get` of src/formulas/env.ts: a formula is a program of reads. Formulas/Range models
--   `processComputationRange` of src/formulas/utils.ts, which samples what a range has computed.
--   Formulas/Snapshots and Formulas/Simple model the loads and `makeSimpleContractFormula` of
--   src/formulas/formulas/utils.ts, which formulas are made of.
-- - Computations: what is stored of a computation. It models `updateValidityUpToBlockHeight` and
--   `revalidate` of src/db/models/Computation.ts and `invalidateComputationsDependentOnChanges` of
--   src/db/computation.ts: the interval of blocks that `computeRange` gives to a result is extended,
--   checked again, and cut when events of earlier blocks are written.
-- - Governance: the status of proposals. Governance/Expirations models `isExpirationExpired` and
--   `expirationPlusDuration` of src/formulas/formulas/utils.ts, Governance/Votes the thresholds of
--   src/formulas/formulas/contract/proposal/utils/math.ts, and Governance/Single and
--   Governance/Multiple the files status.ts and types.ts of daoProposalSingle and
--   daoProposalMultiple beside it.
-- - Services/BlockIterator models src/services/BlockIterator.ts: the fetcher fills a buffer with the
--   blocks that arrive in any order, and the loop of `iterate` takes them in order; each runs
--   between its awaits as a step of `run`.
-- - Utils/Batch models `retry` and `batch` of src/utils/misc.ts, and Utils/Keys the nested keys of
--   src/utils/keys.ts.
-- - Prelude has what these share: tests and lists over the native numbers, association lists for
--   records with text keys, and signed integers for `bigint` values that may be negative.
--
-- A function of the code is a definition of the same name in lower case with underscores; a method
-- takes the state and gives the new one. A value that may be undefined is an Option, as is a result
-- that may be an error where the error is not looked at.
--
-- Bounds: heights, times, votes and powers are numbers without a bound, as the code's `bigint`
-- values are. Loops are recursion on their lists; those that are not have fuel: `sample_by` gives
-- its loop one pass more than the range has points, the counter rising in each, and `batch` one for
-- each item, each batch having one at least. The loop of `computeRange` has two passes more than the
-- blocks between the ends, the height rising in each. The theorems on them are of the whole result.
-- The numbers of a nested key are bytes, and what does not fit the widths is an error.
--
-- Not modelled: the database with its models and migrations, the queue, search, chain and server
-- clients, and waits, which only move values in and out; the handlers of traces and the extractors
-- of the listener; floats, where the code converts numbers that it compares: times in nanoseconds
-- are compared exactly here, and the text of `1 - Number(percent)`, which is not exact for all
-- percentages (0.9 is one), is a parameter of which nothing is assumed but that it is a decimal
-- without an exponent. What the environment of a
-- formula finds is a parameter, but for what `get` finds in Formulas/Compute, where no read is of a
-- prefix; a formula that depends on the block, or is dynamic, has no theorem on its range. How the
-- database matches a dependency with an event is a parameter of Computations. The search of the
-- start height by the iterator of blocks and its decoding of transactions, the service of wasm codes
-- and the other formulas are not modelled.
pub mod Prelude
pub mod Tracer
pub mod Computations
pub mod Formulas
pub mod Governance
pub mod Services
pub mod Utils
