-- ===== src/Access.antt =====
-- Roles and the scope of a session (internal/auth/session.go, internal/api/scope.go), and the address
-- of a client (internal/api/clientip.go).
pub mod Role
pub mod Scope
pub mod ClientIp
pub mod Forwarded
pub mod Chain
pub mod Reach
pub mod Session
pub mod Highest
pub mod Agents
