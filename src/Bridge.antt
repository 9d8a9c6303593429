-- ===== src/Bridge.antt =====
-- The plugin of integrations/dsh-link-bridge, which runs inside the DSH host.
pub mod Topics
pub mod Routes
pub mod Wake
pub mod State
pub mod Sessions
pub mod Tick
pub mod Outbound
pub mod Commands
