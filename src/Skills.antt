-- ===== src/Skills.antt =====
-- The skills of stock-assistant-pipeline-intelligence/app/skills.
pub mod EntityAnalysis
