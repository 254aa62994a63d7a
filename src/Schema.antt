-- ===== src/Schema.antt =====
-- schema/: declarative table schemas, and the SQLAlchemy metadata that is built from them.
pub mod Config
pub mod Builder
pub mod Buildable
mod Tests
