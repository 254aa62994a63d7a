-- ===== src/Observability.antt =====
-- What observes the rest of the library: the ambient correlation id, log lines, the audit trail,
-- metrics and traces.
pub mod Context
pub mod Logging
pub mod Audit
pub mod Tracking
mod Tests
