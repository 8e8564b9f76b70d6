-- ===== src/Store/File/Refinement.antt =====
-- The file store keeps the contract of the memory store: what each operation does to the records, and
-- whole histories of operations with failing writes.
pub mod Writes
pub mod Operations
pub mod Conditional
pub mod Prunes
pub mod History
