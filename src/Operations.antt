-- ===== src/Operations.antt =====
-- The durable operations of the control plane (internal/operations).
pub mod Value
pub mod State
pub mod Record
pub mod Lease
pub mod Idempotency
pub mod Samples
