-- ===== src/Bridge/Topics.antt =====
-- The topic policy, integrations/dsh-link-bridge/lib/topics.js.
pub mod Readers
pub mod Policy
pub mod Subject
pub mod Keys
pub mod Pool
pub mod Plan
pub mod Budget
pub mod Sweep
mod Tests
