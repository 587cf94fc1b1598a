-- ===== src/Workqueue/Notify.antt =====
-- crates/px4-workqueue/src/notify.rs: the permit, `notify` and the poll of `Notified`, over the
-- threads of the waker store.
--
-- Thread 0 is the task that waits, and `waiter` says where it stands in its poll; every other thread
-- may call `notify`, and is `marked` between the store of the permit and the `wake`. Each atomic
-- operation is one step. One task waits, so one waker `w` is ever registered; `woken` says that it
-- was invoked since the last poll began.
pub mod Defs
pub mod Inv
mod Steps
mod Moves
pub mod Wakeup
mod Tests
