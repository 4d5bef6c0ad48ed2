-- ===== src/Kernel.antt =====
-- kernel/: the process that owns the queues, the resources and the planners.
pub mod State
pub mod Queues
pub mod Deadlocks
pub mod Connection
pub mod Planners
pub mod Start
pub mod Balance
pub mod Resources
pub mod Occurrences
pub mod Placed
pub mod Machine
