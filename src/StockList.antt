-- ===== src/StockList.antt =====
-- stock-assistant-pipeline-intelligence/app/common/hk_stock_list.py
pub mod Subsequence
pub mod Entries
pub mod Refresh
pub mod Search
