-- ===== src/Ingestion.antt =====
-- stock-assistant-data-ingestion: the service that crawls and cleans the news.
pub mod Backoffs
pub mod Cleaning
pub mod Connection
pub mod Crawling
pub mod Pages
