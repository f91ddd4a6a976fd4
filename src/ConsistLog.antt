-- ===== src/ConsistLog.antt =====
-- storage/src/consistlog: the logs that keep the storage nodes of a group consistent.
pub mod Format
pub mod Names
pub mod RollbackLog
pub mod SynLog
pub mod RingLog
mod Tests
