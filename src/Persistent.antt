-- ===== src/Persistent.antt =====
-- stock-assistant-pipeline-intelligence/app/persistent
pub mod EventRepository
pub mod EventScoreRepository
