-- ===== src/Tests.antt =====
-- Sample data, and the theorems at concrete inputs.
pub mod Samples
mod Sorting
mod Storing
mod Migrating
mod Submitting
mod Limiting
mod Draining
mod Serving
mod Owning
mod Signing
