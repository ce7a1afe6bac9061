-- ===== src/Formulas.antt =====
-- The evaluation of formulas on the state of the chain.
pub mod Events
pub mod Range
pub mod Compute
pub mod Snapshots
pub mod Simple
