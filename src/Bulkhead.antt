-- ===== src/Bulkhead.antt =====
-- The bulkheads (bulkhead/).
pub mod Permits
pub mod Semaphore
pub mod ThreadPool
pub mod Execute
pub mod Handlers
pub mod Balance
pub mod Pool
