-- ===== src/Aggregation.antt =====
-- stock-assistant-pipeline-intelligence/app/aggregation
pub mod SlidingWindow
pub mod Store
pub mod World
pub mod Service
pub mod Groups
pub mod Consumer
