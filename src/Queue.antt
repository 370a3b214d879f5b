-- ===== src/Queue.antt =====
-- The queue between two threads, src/spsc_queue.hpp.
pub mod Batch
pub mod Spsc
pub mod Chain
pub mod Holds
pub mod Run
pub mod Invariant
pub mod Order
pub mod Wake
mod Examples
