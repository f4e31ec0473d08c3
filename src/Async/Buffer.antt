-- ===== src/Async/Buffer.antt =====
-- opencog/util/async_buffer.h: the class async_buffer, step by step as Async/Caller.antt has
-- async_caller. The elements wait in a concurrent_set, which takes each one only once; the writer
-- threads may be stalled, and may be stopped and started again.
pub mod State
pub mod Schedule
pub mod Inserts
pub mod Sound
pub mod Exact
use cogutil.Base.{
  ℕ, zero, suc, ◌+◌, ◌-◌, Bool, true, false, ◌&&◌, List, [], ◌∷◌, ◌++◌, Option, none, some,
  if◌then◌else◌, ltb, ◌==◌,
}
use cogutil.Base.Order.{Less}
use cogutil.Concurrent.Chan.{Chan, Outcome, returns, throws, waits}
use cogutil.Concurrent.Set
pub use cogutil.Async.Buffer.State.{
  Shared, Writer, Client, size, wrote_at_once, writer_got, noted, writer_inserted, client_inserted,
  stop_canceled, stop_reopened, stop_looked, stop_got, checked, drained, started, stop_locked,
  stop_tested, stop_waited, stop_joined, barrier_waited, barrier_locked, flush_waited, open_tested,
}

module _ {ℓ} {A : Type ℓ} (o : Less A) where
  -- A step of `write_loop`, and of what the method calls. From `calling` the method returns.
  unfoldable pub writer_step : Writer A → Shared A → Writer A × Shared A
  writer_step Writer.idle s =
      if s.stall && ltb (size s) s.low then (Writer.idle, s) else (Writer.getting, s)
  writer_step Writer.getting s = writer_got s (Set.get s.store)
  writer_step (Writer.got x) s = (Writer.calling x, record s { busy = s.busy + 1 })
  writer_step (Writer.calling x) s = (Writer.returned, record s { log = s.log ++ x ∷ [] })
  writer_step Writer.returned s = (Writer.uncounted, record s { busy = s.busy - 1 })
  writer_step Writer.uncounted s = (Writer.idle, record s { pending = s.pending - 1 })
  writer_step Writer.gone s = (Writer.gone, s)
  writer_step (Writer.entering x y) s =
      if s.stopping then (Writer.calling x, s) else (Writer.passed x y, s)
  writer_step (Writer.passed x y) s =
      if s.thread_count == 0
      then (Writer.calling x, wrote_at_once y s)
      else (Writer.counting x y, s)
  writer_step (Writer.counting x y) s = (Writer.inserting x y, record s { pending = s.pending + 1 })
  writer_step (Writer.inserting x y) s = writer_inserted x y s (Set.insert o y s.store)
  writer_step (Writer.tallying x new) s = (
    if new then Writer.calling x else Writer.doubling x,
    record s { item_count = s.item_count + 1 },
  )
  writer_step (Writer.doubling x) s =
      (Writer.undoing x, record s { duplicate_count = s.duplicate_count + 1 })
  writer_step (Writer.undoing x) s = (Writer.calling x, record s { pending = s.pending - 1 })
  writer_step (Writer.fencing x) s =
      if s.locked then (Writer.fencing x, s) else (Writer.saving x, record s { locked = true })
  writer_step (Writer.saving x) s = (Writer.lifting x s.stall, s)
  writer_step (Writer.lifting x save) s = (Writer.flush_counting x save, record s { stall = false })
  writer_step (Writer.flush_counting x save) s =
      (Writer.flushing x save, record s { flush_count = s.flush_count + 1 })
  writer_step (Writer.flushing x save) s =
      if ltb 0 (size s) then (Writer.flushing x save, s) else (Writer.restoring x save, s)
  writer_step (Writer.restoring x save) s =
      (Writer.calling x, record s { stall = save; locked = false })

  -- `joined` says that every writer thread has ended: the joins count `_thread_count` down, which is
  -- tested for zero only. `msec` is what the clocks have measured.
  unfoldable pub client_step : Bool → ℕ → Client A → Shared A → Client A × Shared A
  client_step joined msec (Client.enters x) s =
      if s.stopping then (Client.thrown, s) else (Client.passes x, s)
  client_step joined msec (Client.passes x) s =
      if s.thread_count == 0 then (Client.done, wrote_at_once x s) else (Client.awaits x, s)
  client_step joined msec (Client.awaits x) s =
      if s.locked then (Client.awaits x, s) else (Client.counts x, record s { locked = true })
  client_step joined msec (Client.counts x) s =
      (Client.inserts x, record s { pending = s.pending + 1 })
  client_step joined msec (Client.inserts x) s = client_inserted x s (Set.insert o x s.store)
  client_step joined msec (Client.tallies new) s =
      if new
      then (Client.checks, record s { item_count = s.item_count + 1; locked = false })
      else (Client.doubles, record s { item_count = s.item_count + 1 })
  client_step joined msec Client.doubles s =
      (Client.undoes, record s { duplicate_count = s.duplicate_count + 1 })
  client_step joined msec Client.undoes s =
      (Client.checks, record s { pending = s.pending - 1; locked = false })
  client_step joined msec Client.checks s = checked s
  client_step joined msec Client.drains s = drained msec s
  client_step joined msec Client.barrier_awaits s = barrier_locked s
  client_step joined msec Client.barrier_saves s = (Client.barrier_lifts s.stall, s)
  client_step joined msec (Client.barrier_lifts save) s =
      (Client.barrier_counts save, record s { stall = false })
  client_step joined msec (Client.barrier_counts save) s =
      (Client.barrier_waits save, record s { flush_count = s.flush_count + 1 })
  client_step joined msec (Client.barrier_waits save) s = barrier_waited save s
  client_step joined msec (Client.barrier_restores save) s =
      (Client.done, record s { stall = save; locked = false })
  client_step joined msec Client.flush_saves s = (Client.flush_lifts s.stall, s)
  client_step joined msec (Client.flush_lifts save) s =
      (Client.flush_counts save, record s { stall = false })
  client_step joined msec (Client.flush_counts save) s =
      (Client.flush_waits save, record s { flush_count = s.flush_count + 1 })
  client_step joined msec (Client.flush_waits save) s = flush_waited save s
  client_step joined msec (Client.flush_restores save) s = (Client.done, record s { stall = save })
  client_step joined msec Client.stop_lifts s = (Client.stop_awaits, record s { stall = false })
  client_step joined msec Client.stop_awaits s = stop_locked s
  client_step joined msec Client.stop_tests s = stop_tested s
  client_step joined msec Client.stop_waits s = stop_waited s
  client_step joined msec Client.stop_cancels s = stop_canceled s (Set.cancel s.store)
  client_step joined msec Client.stop_joins s = stop_joined joined s
  client_step joined msec Client.stop_resets s = stop_reopened s (Set.cancel_reset s.store)
  client_step joined msec Client.stop_empties s = stop_looked s (Set.is_empty s.store)
  client_step joined msec Client.stop_gets s = stop_got s (Set.get s.store)
  client_step joined msec (Client.stop_writes x) s =
      (Client.stop_empties, record s { log = s.log ++ x ∷ [] })
  client_step joined msec Client.stop_ends s =
      (Client.done, record s { stopping = false; write_locked = false })
  client_step joined msec (Client.open_tests n) s = open_tested n s
  client_step joined msec (Client.opens zero) s = (Client.done, s)
  client_step joined msec (Client.opens (suc n)) s = started n s
  client_step joined msec Client.done s = (Client.done, s)
  client_step joined msec Client.thrown s = (Client.thrown, s)
