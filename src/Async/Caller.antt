-- ===== src/Async/Caller.antt =====
-- opencog/util/async_method_caller.h: the class async_caller. Each thread stands at a place between
-- two accesses to what the threads share; a step is one access, or one section of the queue's lock.
-- A thread that waits stays where it is. A wait of `value_pop` is such a wait: which sleeper is
-- woken is in Concurrent/Monitor. The writer's method may call `enqueue` and `barrier` itself, and
-- is taken to catch what they throw.
pub mod State
pub mod Schedule
pub mod Sound
pub mod Exact
pub mod Progress
use cogutil.Base.{
  ℕ, ◌+◌, ◌-◌, Bool, true, false, List, [], ◌∷◌, ◌++◌, Option, none, some, if◌then◌else◌, ltb, ◌==◌,
}
use cogutil.Concurrent.Chan.{Chan, Outcome, returns, throws, waits}
use cogutil.Concurrent.Queue
pub use cogutil.Async.Caller.State.{
  Shared, Writer, Client, size, wrote_at_once, writer_popped, writer_pushed, client_pushed,
  stop_canceled, stop_reopened, stop_looked, stop_popped, checked, drained, stop_locked,
  stop_tested, stop_waited, stop_joined, barrier_waited, barrier_locked, flush_waited,
}

module _ {ℓ} {A : Type ℓ} where
  -- A step of `write_loop`, and of what the method calls. From `calling` the method returns.
  unfoldable pub writer_step : Writer A → Shared A → Writer A × Shared A
  writer_step Writer.popping s = writer_popped s (Queue.pop s.queue)
  writer_step (Writer.popped x) s = (Writer.calling x, record s { busy = s.busy + 1 })
  writer_step (Writer.calling x) s = (Writer.returned, record s { log = s.log ++ x ∷ [] })
  writer_step Writer.returned s = (Writer.uncounted, record s { busy = s.busy - 1 })
  writer_step Writer.uncounted s = (Writer.popping, record s { pending = s.pending - 1 })
  writer_step Writer.gone s = (Writer.gone, s)
  writer_step (Writer.entering x y) s =
      if s.stopping then (Writer.calling x, s) else (Writer.passed x y, s)
  writer_step (Writer.passed x y) s =
      if s.thread_count == 0
      then (Writer.calling x, wrote_at_once y s)
      else (Writer.counting x y, s)
  writer_step (Writer.counting x y) s = (Writer.inserting x y, record s { pending = s.pending + 1 })
  writer_step (Writer.inserting x y) s = writer_pushed x y s (Queue.push y s.queue)
  writer_step (Writer.tallying x) s = (Writer.calling x, record s { item_count = s.item_count + 1 })
  writer_step (Writer.fencing x) s =
      if s.locked then (Writer.fencing x, s) else (Writer.fenced x, record s { locked = true })
  writer_step (Writer.fenced x) s =
      (Writer.flushing x, record s { flush_count = s.flush_count + 1 })
  writer_step (Writer.flushing x) s =
      if ltb 0 (size s)
      then (Writer.flushing x, s)
      else (Writer.calling x, record s { locked = false })

  -- `joined` says that every writer thread has ended: the joins count `_thread_count` down, which is
  -- tested for zero only. `msec` is what the clocks have measured.
  unfoldable pub client_step : Bool → ℕ → Client A → Shared A → Client A × Shared A
  client_step joined msec (Client.enters x) s =
      if s.stopping then (Client.thrown, s) else (Client.passes x, s)
  client_step joined msec (Client.passes x) s =
      if s.thread_count == 0 then (Client.done, wrote_at_once x s) else (Client.awaits x, s)
  client_step joined msec (Client.awaits x) s =
      if s.locked then (Client.awaits x, s) else (Client.counts x, record s { locked = true })
  client_step joined msec (Client.counts x) s =
      (Client.inserts x, record s { pending = s.pending + 1 })
  client_step joined msec (Client.inserts x) s = client_pushed x s (Queue.push x s.queue)
  client_step joined msec Client.tallies s =
      (Client.checks, record s { item_count = s.item_count + 1; locked = false })
  client_step joined msec Client.checks s = checked s
  client_step joined msec Client.drains s = drained msec s
  client_step joined msec Client.barrier_awaits s = barrier_locked s
  client_step joined msec Client.barrier_counts s =
      (Client.barrier_waits, record s { flush_count = s.flush_count + 1 })
  client_step joined msec Client.barrier_waits s = barrier_waited s
  client_step joined msec Client.flush_counts s =
      (Client.flush_waits, record s { flush_count = s.flush_count + 1 })
  client_step joined msec Client.flush_waits s = flush_waited s
  client_step joined msec Client.stop_awaits s = stop_locked s
  client_step joined msec Client.stop_tests s = stop_tested s
  client_step joined msec Client.stop_waits s = stop_waited s
  client_step joined msec Client.stop_cancels s = stop_canceled s (Queue.cancel s.queue)
  client_step joined msec Client.stop_joins s = stop_joined joined s
  client_step joined msec Client.stop_resets s = stop_reopened s (Queue.cancel_reset s.queue)
  client_step joined msec Client.stop_empties s = stop_looked s (Queue.is_empty s.queue)
  client_step joined msec Client.stop_pops s = stop_popped s (Queue.pop s.queue)
  client_step joined msec (Client.stop_writes x) s =
      (Client.stop_empties, record s { log = s.log ++ x ∷ [] })
  client_step joined msec Client.stop_ends s =
      (Client.done, record s { stopping = false; write_locked = false })
  client_step joined msec Client.done s = (Client.done, s)
  client_step joined msec Client.thrown s = (Client.thrown, s)
