-- ===== src/Sessions.antt =====
-- scrybe-application: the services' shared contracts.
pub mod Identity
pub mod Error
pub mod Paging
pub mod Scan
pub mod Retention
mod Tests
