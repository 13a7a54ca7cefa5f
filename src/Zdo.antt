-- ===== src/Zdo.antt =====
-- The zdo layer of the tophamm program: tophamm/src/zdo.
pub mod Errors
pub mod Messages
pub mod Protocol
pub mod Neighbors
pub mod Transactions
pub mod Layer
