-- ===== src/Providers.antt =====
-- scrybe-core/src/providers: the cloud providers' shared retry loop.
pub mod Retry
mod Tests
