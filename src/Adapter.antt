-- ===== src/Adapter.antt =====
-- adapters/: the load balancer, the relational adapter, and those of MongoDB and Qdrant.
pub mod Routing
pub mod Interface
pub mod Relational
pub mod Single
pub mod Mongo
pub mod Qdrant
mod Tests
