-- ===== src/Alert.antt =====
-- internal/alert: rules, their evaluation with hysteresis, silences, and the manager that holds the
-- states.
pub mod Rule
pub mod Evaluate
pub mod Hysteresis
pub mod Liveness
pub mod Episodes
pub mod Silence
pub mod Silenced
pub mod Manager
pub mod Observe
pub mod Control
pub mod States
pub mod Series
pub mod Delivery
pub mod Nearest
pub mod Reload
pub mod Reloaded
pub mod Contexts
