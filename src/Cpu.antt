-- ===== src/Cpu.antt =====
-- The CPU program: cpu/src.
pub mod Execution
pub mod Statements
pub mod Rounds
pub mod Mmu
mod Tests
