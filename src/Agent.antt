-- ===== src/Agent.antt =====
-- internal/agent/agent.go: what an agent measures, and how it hands its results to the master.
pub mod Outbox
pub mod Push
pub mod Delivery
pub mod Draining
