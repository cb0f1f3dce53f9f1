-- ===== src/Repository.antt =====
-- internal/repository/repository.go
pub mod Models
pub mod Tables
pub mod Reads
pub mod Writes
pub mod Order
pub mod WellFormed
pub mod Languages
mod Tests
