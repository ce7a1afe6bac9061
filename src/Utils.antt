-- ===== src/Utils.antt =====
-- src/utils: helpers that the indexer's parts share.
pub mod Batch
pub mod Keys
