-- ===== src/Lib.antt =====
-- px4-rs: Rust modules for the PX4 autopilot. Asynchronous tasks run on PX4's work queues and talk to
-- each other by a notification, a channel and timers, and to the rest of PX4 by uORB topics, whose
-- message types are generated from .msg files.
--
-- A task is a cell: a future, a state word and a work item of the queue. Waking a task schedules its
-- work item, and the dispatcher of the queue polls the future. Everything that a task can wait for
-- keeps the waker of the task in an `AtomicWaker`. This library models the host build (the mock back
-- ends), where the program's own code stands in for PX4:
--
--   Workqueue/Cell         crates/px4-workqueue/src/cell.rs and waker.rs, and the queue of ffi.rs:
--                          `try_spawn`, `spawn`, `waker_wake_by_ref`, `poll_once`, the dispatcher.
--                          A future is any type with a poll, a parameter, which says how often
--                          the waker of its own task is called meanwhile; `YieldNow` of
--                          crates/px4-workqueue/src/yield_.rs is one
--   Workqueue/AtomicWaker  crates/px4-workqueue/src/atomic_waker.rs: `register`, `take` and `wake`,
--                          one atomic operation or slot access at a time, by any number of threads,
--                          in sequentially consistent memory; and the same calls undisturbed
--   Workqueue/Notify       crates/px4-workqueue/src/notify.rs: one waiting task, any number of
--                          notifying threads, interleaved step by step over the AtomicWaker
--   Workqueue/Channel      crates/px4-workqueue/src/channel.rs: `try_send`, `try_recv`, the futures
--                          `Send` and `Recv`, `Drop`. The width of `usize` and the capacity are
--                          parameters; a call is one step. Below it `Flow`: a producer and a
--                          consumer interleaved at each access of the counters and the slots
--                          and `Parking`: the two tasks that poll the futures, likewise
--   Workqueue/Timer        crates/px4-workqueue/src/timer.rs and hrt.rs: `Sleep` and the timer
--                          queue of the host
--   Uorb/Broker            crates/px4-uorb/src/ffi.rs, the broker of the host, one topic of it
--   Uorb/Topics            crates/px4-uorb/src/ffi.rs: the map of the broker, from names to topics
--                          and, with raw.rs, publications and subscriptions of several topics
--   Uorb/Client            crates/px4-uorb/src/pub_.rs, sub.rs and raw.rs: publications and
--                          subscriptions over the broker
--   Uorb/Racing            crates/px4-uorb/src/pub_.rs: threads that publish through one publication
--                          and unadvertise it, interleaved at each access of the handle
--   Uorb/Overlap           crates/px4-uorb/src/ffi.rs and sub.rs: threads in `publish` and a task that
--                          polls `Recv`, interleaved at each lock of a topic
--   Codegen                crates/px4-msg-codegen/src/model.rs and layout.rs: the layout of the
--                          fields of a message, and the snake case of its name
--   Codegen/Types          model.rs, parser.rs and layout.rs: the names of types, read and written
--   Codegen/Parser         parser.rs: a .msg file read line by line, with its errors
--   Codegen/Hash           layout.rs: the text of a message that is hashed, and FNV-1a
--   Codegen/Resolver       layout.rs: the resolver of nested messages with its cache
--   Codegen/Emit           emit.rs: the items that are generated, as abstract syntax
--   Codegen/Generate       crates/px4-msg-codegen/src/lib.rs: parse, lay out, generate
--   Log                    crates/px4-log/src/lib.rs and args.rs: the buffer of a message, the
--                          arguments of a module
--   Log/Records            crates/px4-log/src/lib.rs, result.rs and log_backend.rs: the calls of PX4's
--                          logger, and the exit code of a module
--   Macros                 crates/px4-macros/src/lib.rs and crates/px4-workqueue-macros/src/lib.rs: the
--                          attribute macros, from the syntax of a function to the items
--   SysBuild               crates/px4-sys/build.rs: the build script of the bindings, from its
--                          environment to the lines that it prints and the compiler's settings
--   Xtask                  xtask/src/main.rs: the flags of the build tool, its exit code, and the loop
--                          that generates all messages of a PX4 tree
--   Text                   what the generator uses of Rust's `str`; a text is the list of its
--                          characters' codes
--   Bits                   the exclusive or of numbers
--   Prelude                names, Boolean tests, lists over native numbers, families by index
--
-- In each, the parent module holds the definitions, named after the functions of the source, and the
-- modules below it the lemmas and properties, named for what they are about; `Tests` holds runs on
-- concrete data.
--
-- Numbers that the source keeps in a machine integer wrap where the source lets them: the counters of
-- the channel at a parameter, the sequence number of a topic at 2^64, its count of lost messages at
-- 2^32. The generator's sizes are unbounded here, where the source has `usize`: a message of 2^64 bytes
-- or more is left out. Reads of memory that is not initialised, and a publish through a null handle,
-- are values of their own and not left out. These definitions run on fuel: the loop of `Drop` of a channel, for which
-- one round more than there are values is enough; the AtomicWaker undisturbed, for which four steps
-- are more than any call takes; the resolver of nested messages and the text that is hashed, where
-- fuel above the depth of the nesting is enough; the iteration over arguments, for which the argument
-- count is enough; and the printing of a number, which takes no more rounds than the number counts.
--
-- What belongs to other crates is a parameter: the tokens and names of proc_macro2, the lookup of
-- proc_macro_crate, the sizes and alignments that the compiler gives the types of generated fields, and
-- for the build script what bindgen and the C++ compiler answer. The file system
-- is a function from a name to what is found under it. A panic of the generator is a result of its
-- own.
--
-- Not modelled: memory weaker than sequentially consistent; interleavings inside the registration
-- of a uORB callback, and inside a call of a waker but in Workqueue/AtomicWaker and Workqueue/Notify;
-- the real PX4 behind the bindings of crates/px4-sys; the text of
-- generated Rust, and the lookup of PX4's own metadata in it; the panic handler of crates/px4-log; the
-- table of work queues and the message macros, which hold no logic of their own; bindgen and its
-- settings; the examples and the tests in simulation.
pub mod Codegen
pub mod Log
pub mod Macros
pub mod Prelude
pub mod Text
pub mod Bits
pub mod Uorb
pub mod Workqueue
pub mod SysBuild
pub mod Xtask
