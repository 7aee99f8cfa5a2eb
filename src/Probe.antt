-- ===== src/Probe.antt =====
-- internal/probe/scheduler.go: when the pings of an interval are sent, and what is made of the
-- replies.
pub mod Clock
pub mod Schedule
pub mod Collector
pub mod Mode
pub mod Finalize
pub mod Figures
pub mod Tallies
pub mod Causes
pub mod Runs
pub mod Replies
pub mod Closed
pub mod Timing
pub mod Specs
pub mod Loaded
pub mod DnsCache
pub mod Offers
pub mod Cached
pub mod Lookups
