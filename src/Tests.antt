-- ===== src/Tests.antt =====
-- Runs of the development on concrete inputs.
mod Decimal
mod Breaker
mod Permissions
mod Attempts
mod Names
mod Chains
mod Publishing
mod Collectors
mod Intervals
mod Facades
mod Pools
mod Callers
mod Apps
