-- ===== src/Services.antt =====
-- src/services: the clients that feed the indexer.
pub mod BlockIterator
