-- ===== src/Scenarios.antt =====
-- Each headline theorem at a concrete input, and small runs.
mod Fixed
mod Blobs
mod Trees
mod Alerts
mod Managers
mod Reports
mod Scopes
mod Writes
mod Calls
mod Probes
mod Agents
mod Reloads
mod Specs
mod Lookups
mod Proxies
