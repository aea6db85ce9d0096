-- ===== src/Tests.antt =====
-- Concrete runs: each theorem with a hypothesis at an input where it holds.
pub mod World
pub mod Places
pub mod Wallets
pub mod Agents
pub mod Timers
pub mod Messages
pub mod Handlers
pub mod Webhooks
pub mod Startup
pub mod Failures
pub mod Requests
pub mod Stopped
pub mod Routes
pub mod Sequence
pub mod Wiring
pub mod Http
pub mod Tables
pub mod Bodies
