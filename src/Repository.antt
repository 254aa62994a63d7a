-- ===== src/Repository.antt =====
-- interfaces/repository.py, the translations of its criteria by each backend, and the isolation of
-- tenants over any repository.
pub mod Criteria
pub mod Interface
pub mod Bulk
pub mod Tenancy
pub mod Document
pub mod Table
pub mod Relational
pub mod Point
pub mod Vector
pub mod Slot
mod Tests
