-- ===== src/Workqueue.antt =====
-- crates/px4-workqueue: the async runtime over PX4's WorkQueue.
pub mod Cell
pub mod AtomicWaker
pub mod Notify
pub mod Timer
pub mod Channel
