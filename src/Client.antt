-- ===== src/Client.antt =====
-- internal/client: filters on frames and signals, and the dispatchers that fan both out.
pub mod SignalFilter
pub mod Filters
pub mod Dedupe
pub mod Outlet
pub mod MessageDispatch
pub mod SignalDispatch
mod Tests
