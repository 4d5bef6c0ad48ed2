-- ===== src/Memory.antt =====
-- The memory program: memory/src.
pub mod State
pub mod Pages
pub mod Connection
pub mod Program
pub mod Represents
pub mod Faults
mod Tests
