-- ===== src/Shared.antt =====
-- shared/: the code that every program of the repository links.
pub mod Buffer
pub mod Socket
pub mod Operation
pub mod Process
pub mod Instructions
