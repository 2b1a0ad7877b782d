-- ===== src/Postgres.antt =====
-- internal/repository/postgres and the schema of migrations/.
pub mod Schema
pub mod BookingRepo
pub mod EventRepo
pub mod AuditRepo
pub mod UserRepo
pub mod Queries
pub mod Effects
pub mod Cancelling
pub mod Integrity
pub mod Capacity
