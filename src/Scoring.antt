-- ===== src/Scoring.antt =====
-- scoring of stock-assistant-pipeline-intelligence/app.
pub mod Rule
pub mod Service
