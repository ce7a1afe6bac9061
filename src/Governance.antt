-- ===== src/Governance.antt =====
-- The status of DAO proposals (src/formulas/formulas: utils.ts, contract/proposal).
pub mod Expirations
pub mod Votes
pub mod Single
pub mod Multiple
pub mod Tests
