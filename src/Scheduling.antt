-- ===== src/Scheduling.antt =====
-- The scheduling simulators: schedulling_algorithms/*.c.
pub mod Lottery
pub mod Mlfq
pub mod BubbleSort
pub mod Annealing
pub mod MlfqImproved
