-- ===== src/Service.antt =====
-- internal/service.
pub mod Audit
pub mod AuditDiff
mod AuditTests
pub mod Event
pub mod Maintains
pub mod LostUpdate
pub mod History
pub mod Booking
pub mod Auth
mod Tests
