-- ===== src/Concurrent.antt =====
-- opencog/util/concurrent_queue.h, concurrent_stack.h and concurrent_set.h.
pub mod Chan
pub mod Monitor
pub mod Queue
pub mod Stack
pub mod Set
pub mod Pool
