-- ===== src/Tracer.antt =====
-- The tracer (src/tracer): traces flow from the FIFO through the two queues of the manager to the
-- batching exporter, which hands batches to the export queue.
pub mod Manager
pub mod Exporter
