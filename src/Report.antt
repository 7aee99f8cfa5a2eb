-- ===== src/Report.antt =====
-- internal/report: availability over a period.
pub mod Model
pub mod Groups
pub mod Outages
pub mod Accounting
