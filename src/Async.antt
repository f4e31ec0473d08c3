-- ===== src/Async.antt =====
-- opencog/util/async_method_caller.h and async_buffer.h: pools of writer threads that drain a
-- concurrent queue and a concurrent set.
pub mod Threads
pub mod Invariant
pub mod Caller
pub mod Buffer
