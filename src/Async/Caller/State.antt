-- ===== src/Async/Caller/State.antt =====
-- opencog/util/async_method_caller.h: the fields of async_caller, the places of its threads, and what
-- a step makes of the answer of the queue.
use cogutil.Base.{
  ℕ, ◌+◌, Bool, true, false, List, [], ◌∷◌, ◌++◌, Option, none, some, if◌then◌else◌, ltb, ◌==◌,
}
use cogutil.Concurrent.Chan.{Chan, Outcome, returns, throws, waits}
use cogutil.Concurrent.Queue

-- What the threads share. `locked` is `_enqueue_mutex`, `write_locked` is `_write_mutex`. `log` are
-- the calls of `_do_write` that have returned, in order; `accepted`, which the program does not
-- keep, are the elements that were pushed or written at once.
pub record Shared {ℓ} (A : Type ℓ) : Type ℓ where
  pub queue : Chan A
  pub locked : Bool
  pub write_locked : Bool
  pub busy : ℕ
  pub pending : ℕ
  pub high : ℕ
  pub low : ℕ
  pub thread_count : ℕ
  pub stopping : Bool
  pub in_drain : Bool
  pub item_count : ℕ
  pub flush_count : ℕ
  pub drain_count : ℕ
  pub drain_msec : ℕ
  pub drain_slowest_msec : ℕ
  pub drain_concurrent : ℕ
  pub log : List A
  pub accepted : List A

-- A writer thread: at `value_pop`; with an element before `_busy_writers ++`; in the method; behind
-- it, before and after `_busy_writers --`; ended. The method may stand in `enqueue`: before each of
-- the two tests, before `_pending ++`, `push` and `_item_count++`; or in `barrier`: before the lock,
-- before `_flush_count++`, and in the loop of `flush_queue`.
pub data Writer {ℓ} (A : Type ℓ) : Type ℓ where
  popping : Writer A
  popped calling : A → Writer A
  returned uncounted gone : Writer A
  entering passed counting inserting : A → A → Writer A
  tallying fencing fenced flushing : A → Writer A

-- Any other thread. In `enqueue`: before the two tests, before the lock, before `_pending ++`,
-- `push` and `_item_count++`, before the test of the watermark, in the loop. In `barrier` and in
-- `flush_queue`: before the lock, before `_flush_count++`, in the loop. In `stop_writer_threads`:
-- before the lock, before the test of `_thread_count`, in the loop, before `cancel`, in the joins,
-- before `cancel_reset`, `is_empty`, `value_pop`, in the method, and at the end.
pub data Client {ℓ} (A : Type ℓ) : Type ℓ where
  enters passes awaits counts inserts : A → Client A
  tallies checks drains : Client A
  barrier_awaits barrier_counts barrier_waits : Client A
  flush_counts flush_waits : Client A
  stop_awaits stop_tests stop_waits stop_cancels stop_joins stop_resets stop_empties : Client A
  stop_pops : Client A
  stop_writes : A → Client A
  stop_ends done thrown : Client A

module _ {ℓ} {A : Type ℓ} where
  abbrev pub size : Shared A → ℕ
  size s = Queue.size s.queue

  -- The synchronous write of `enqueue`.
  abbrev pub wrote_at_once : A → Shared A → Shared A
  wrote_at_once y s = record s {
    item_count = s.item_count + 1;
    log = s.log ++ y ∷ [];
    accepted = s.accepted ++ y ∷ [];
  }

  abbrev pub writer_popped : Shared A → Outcome A (Option A) → Writer A × Shared A
  writer_popped s (returns (some x) q g) = (Writer.popped x, record s { queue = q })
  writer_popped s (returns none q g) = (Writer.popping, s)
  writer_popped s throws = (Writer.gone, s)
  writer_popped s waits = (Writer.popping, s)

  abbrev pub writer_pushed : A → A → Shared A → Outcome A (Unit {0}) → Writer A × Shared A
  writer_pushed x y s (returns u q g) =
      (Writer.tallying x, record s { queue = q; accepted = s.accepted ++ y ∷ [] })
  writer_pushed x y s throws = (Writer.calling x, s)
  writer_pushed x y s waits = (Writer.inserting x y, s)

  abbrev pub client_pushed : A → Shared A → Outcome A (Unit {0}) → Client A × Shared A
  client_pushed x s (returns u q g) =
      (Client.tallies, record s { queue = q; accepted = s.accepted ++ x ∷ [] })
  client_pushed x s throws = (Client.thrown, record s { locked = false })
  client_pushed x s waits = (Client.inserts x, s)

  abbrev pub stop_canceled : Shared A → Outcome A (Unit {0}) → Client A × Shared A
  stop_canceled s (returns u q g) = (Client.stop_joins, record s { queue = q })
  stop_canceled s throws = (Client.thrown, record s { write_locked = false })
  stop_canceled s waits = (Client.stop_cancels, s)

  abbrev pub stop_reopened : Shared A → Outcome A (Unit {0}) → Client A × Shared A
  stop_reopened s (returns u q g) = (Client.stop_empties, record s { queue = q })
  stop_reopened s throws = (Client.thrown, record s { write_locked = false })
  stop_reopened s waits = (Client.stop_resets, s)

  abbrev pub stop_looked : Shared A → Outcome A Bool → Client A × Shared A
  stop_looked s (returns true q g) = (Client.stop_ends, s)
  stop_looked s (returns false q g) = (Client.stop_pops, s)
  stop_looked s throws = (Client.thrown, record s { write_locked = false })
  stop_looked s waits = (Client.stop_empties, s)

  abbrev pub stop_popped : Shared A → Outcome A (Option A) → Client A × Shared A
  stop_popped s (returns (some x) q g) = (Client.stop_writes x, record s { queue = q })
  stop_popped s (returns none q g) = (Client.stop_pops, s)
  stop_popped s throws = (Client.thrown, record s { write_locked = false })
  stop_popped s waits = (Client.stop_pops, s)

  -- The test of the high watermark, and what `_in_drain` counts.
  abbrev pub checked : Shared A → Client A × Shared A
  checked s =
      if ltb s.high (size s)
      then (
        Client.drains,
        record s {
          in_drain = true;
          drain_concurrent = if s.in_drain then s.drain_concurrent + 1 else s.drain_concurrent;
          drain_count = if s.in_drain then s.drain_count else s.drain_count + 1;
        },
      )
      else (Client.done, s)

  -- The loop down to the low watermark, and the time it took.
  abbrev pub drained : ℕ → Shared A → Client A × Shared A
  drained msec s = if ltb s.low (size s) then (Client.drains, s) else (
    Client.done,
    record s {
      in_drain = false;
      drain_msec = s.drain_msec + msec;
      drain_slowest_msec = if ltb s.drain_slowest_msec msec then msec else s.drain_slowest_msec;
    },
  )

  -- The parts of `stop_writer_threads` up to its joins.
  abbrev pub stop_locked : Shared A → Client A × Shared A
  stop_locked s =
      if s.write_locked
      then (Client.stop_awaits, s)
      else (Client.stop_tests, record s { write_locked = true })

  abbrev pub stop_tested : Shared A → Client A × Shared A
  stop_tested s =
      if s.thread_count == 0
      then (Client.done, record s { write_locked = false })
      else (Client.stop_waits, record s { stopping = true })

  abbrev pub stop_waited : Shared A → Client A × Shared A
  stop_waited s = if ltb 0 s.pending then (Client.stop_waits, s) else (Client.stop_cancels, s)

  abbrev pub stop_joined : Bool → Shared A → Client A × Shared A
  stop_joined joined s =
      if joined then (Client.stop_resets, record s { thread_count = 0 }) else (Client.stop_joins, s)

  -- The loop of `drain`, at the end of which `barrier` unlocks.
  abbrev pub barrier_waited : Shared A → Client A × Shared A
  barrier_waited s =
      if ltb 0 s.pending
      then (Client.barrier_waits, s)
      else (Client.done, record s { locked = false })

  abbrev pub barrier_locked : Shared A → Client A × Shared A
  barrier_locked s =
      if s.locked
      then (Client.barrier_awaits, s)
      else (Client.barrier_counts, record s { locked = true })

  -- The loop of `flush_queue`.
  abbrev pub flush_waited : Shared A → Client A × Shared A
  flush_waited s = if ltb 0 (size s) then (Client.flush_waits, s) else (Client.done, s)
