-- ===== src/Core.antt =====
-- The core package (core/).
pub mod Configs
pub mod Decorators
pub mod Retries
pub mod Chain
pub mod Events
pub mod Delivery
pub mod Metrics
pub mod Publisher
