-- ===== src/Tests.antt =====
-- Concrete data, and the theorems applied to it. `Operations` has a small world for the operations.
mod Operations
mod Push
mod Generation
mod Cli
mod Images
mod Listing
mod Formats
