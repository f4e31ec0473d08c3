-- ===== src/Async/Buffer/State.antt =====
-- opencog/util/async_buffer.h: the fields of async_buffer, the places of its threads, and what a step
-- makes of the answer of the set.
use cogutil.Base.{
  ℕ, suc, ◌+◌, Bool, true, false, List, [], ◌∷◌, ◌++◌, ◌==◌, Option, none, some, if◌then◌else◌, ltb,
}
use cogutil.Concurrent.Chan.{Chan, Outcome, returns, throws, waits}
use cogutil.Concurrent.Set

-- What the threads share. `log` are the calls of `_do_write` that have returned, in order;
-- `accepted`, which the program does not keep, are the elements that were new to the set when they
-- were inserted, or were written at once.
pub record Shared {ℓ} (A : Type ℓ) : Type ℓ where
  pub store : Chan A
  pub locked : Bool
  pub write_locked : Bool
  pub busy : ℕ
  pub pending : ℕ
  pub high : ℕ
  pub low : ℕ
  pub thread_count : ℕ
  pub stopping : Bool
  pub stall : Bool
  pub in_drain : Bool
  pub item_count : ℕ
  pub duplicate_count : ℕ
  pub flush_count : ℕ
  pub drain_count : ℕ
  pub drain_msec : ℕ
  pub drain_slowest_msec : ℕ
  pub drain_concurrent : ℕ
  pub log : List A
  pub accepted : List A

-- A writer thread: at the head of the loop, before the test of the stall; at `value_get`; with an
-- element before `_busy_writers ++`; in the method; behind it, before and after `_busy_writers --`;
-- ended. The method may stand in `insert`: before each of the two tests, before `_pending ++`,
-- `insert`, `_item_count++`, `_duplicate_count++` and `_pending --`; or in `barrier`: before the
-- lock, before `save_stall` is read, before the stall is lifted, before `_flush_count++`, in the
-- loop of `flush`, before the stall is put back.
pub data Writer {ℓ} (A : Type ℓ) : Type ℓ where
  idle getting : Writer A
  got calling : A → Writer A
  returned uncounted gone : Writer A
  entering passed counting inserting : A → A → Writer A
  tallying : A → Bool → Writer A
  doubling undoing fencing saving : A → Writer A
  lifting flush_counting flushing restoring : A → Bool → Writer A

-- Any other thread, with the same places; `flush` has no lock, and `close` lifts the stall first.
-- `open` stands before the test of `_thread_count`, and then before each `start_writer_thread`.
pub data Client {ℓ} (A : Type ℓ) : Type ℓ where
  enters passes awaits counts inserts : A → Client A
  tallies : Bool → Client A
  doubles undoes checks drains : Client A
  barrier_awaits barrier_saves : Client A
  barrier_lifts barrier_counts barrier_waits barrier_restores : Bool → Client A
  flush_saves : Client A
  flush_lifts flush_counts flush_waits flush_restores : Bool → Client A
  stop_lifts stop_awaits stop_tests stop_waits stop_cancels stop_joins stop_resets : Client A
  stop_empties stop_gets : Client A
  stop_writes : A → Client A
  stop_ends : Client A
  open_tests opens : ℕ → Client A
  done thrown : Client A

module _ {ℓ} {A : Type ℓ} where
  abbrev pub size : Shared A → ℕ
  size s = Set.size s.store

  -- The synchronous write of `insert`.
  abbrev pub wrote_at_once : A → Shared A → Shared A
  wrote_at_once y s = record s {
    item_count = s.item_count + 1;
    log = s.log ++ y ∷ [];
    accepted = s.accepted ++ y ∷ [];
  }

  abbrev pub writer_got : Shared A → Outcome A (Option A) → Writer A × Shared A
  writer_got s (returns (some x) q g) = (Writer.got x, record s { store = q })
  writer_got s (returns none q g) = (Writer.getting, s)
  writer_got s throws = (Writer.gone, s)
  writer_got s waits = (Writer.getting, s)

  abbrev pub noted : A → Bool → Chan A → Shared A → Shared A
  noted y new q s = record s {
    store = q;
    accepted = if new then s.accepted ++ y ∷ [] else s.accepted;
  }

  abbrev pub writer_inserted : A → A → Shared A → Outcome A Bool → Writer A × Shared A
  writer_inserted x y s (returns new q g) = (Writer.tallying x new, noted y new q s)
  writer_inserted x y s throws = (Writer.calling x, s)
  writer_inserted x y s waits = (Writer.inserting x y, s)

  abbrev pub client_inserted : A → Shared A → Outcome A Bool → Client A × Shared A
  client_inserted x s (returns new q g) = (Client.tallies new, noted x new q s)
  client_inserted x s throws = (Client.thrown, record s { locked = false })
  client_inserted x s waits = (Client.inserts x, s)

  abbrev pub stop_canceled : Shared A → Outcome A (Unit {0}) → Client A × Shared A
  stop_canceled s (returns u q g) = (Client.stop_joins, record s { store = q })
  stop_canceled s throws = (Client.thrown, record s { write_locked = false })
  stop_canceled s waits = (Client.stop_cancels, s)

  abbrev pub stop_reopened : Shared A → Outcome A (Unit {0}) → Client A × Shared A
  stop_reopened s (returns u q g) = (Client.stop_empties, record s { store = q })
  stop_reopened s throws = (Client.thrown, record s { write_locked = false })
  stop_reopened s waits = (Client.stop_resets, s)

  abbrev pub stop_looked : Shared A → Outcome A Bool → Client A × Shared A
  stop_looked s (returns true q g) = (Client.stop_ends, s)
  stop_looked s (returns false q g) = (Client.stop_gets, s)
  stop_looked s throws = (Client.thrown, record s { write_locked = false })
  stop_looked s waits = (Client.stop_empties, s)

  abbrev pub stop_got : Shared A → Outcome A (Option A) → Client A × Shared A
  stop_got s (returns (some x) q g) = (Client.stop_writes x, record s { store = q })
  stop_got s (returns none q g) = (Client.stop_gets, s)
  stop_got s throws = (Client.thrown, record s { write_locked = false })
  stop_got s waits = (Client.stop_gets, s)

  -- The test of the high watermark, and what `_in_drain` counts.
  abbrev pub checked : Shared A → Client A × Shared A
  checked s =
      if ltb s.high (size s)
      then (
        Client.drains,
        record s {
          in_drain = true;
          drain_concurrent = if s.in_drain then s.drain_concurrent + 1 else s.drain_concurrent;
          drain_count = if s.in_drain then s.drain_count else s.drain_count + 1;
        },
      )
      else (Client.done, s)

  -- The loop down to the low watermark, and the time it took.
  abbrev pub drained : ℕ → Shared A → Client A × Shared A
  drained msec s = if ltb s.low (size s) then (Client.drains, s) else (
    Client.done,
    record s {
      in_drain = false;
      drain_msec = s.drain_msec + msec;
      drain_slowest_msec = if ltb s.drain_slowest_msec msec then msec else s.drain_slowest_msec;
    },
  )

  -- `start_writer_thread`, without the thread that it makes.
  abbrev pub started : ℕ → Shared A → Client A × Shared A
  started n s =
      if s.write_locked
      then (Client.opens (suc n), s)
      else if s.stopping
      then (Client.thrown, s)
      else (Client.opens n, record s { thread_count = s.thread_count + 1 })

  -- The parts of `stop_writer_threads` up to its joins.
  abbrev pub stop_locked : Shared A → Client A × Shared A
  stop_locked s =
      if s.write_locked
      then (Client.stop_awaits, s)
      else (Client.stop_tests, record s { write_locked = true })

  abbrev pub stop_tested : Shared A → Client A × Shared A
  stop_tested s =
      if s.thread_count == 0
      then (Client.done, record s { write_locked = false })
      else (Client.stop_waits, record s { stopping = true })

  abbrev pub stop_waited : Shared A → Client A × Shared A
  stop_waited s = if ltb 0 s.pending then (Client.stop_waits, s) else (Client.stop_cancels, s)

  abbrev pub stop_joined : Bool → Shared A → Client A × Shared A
  stop_joined joined s =
      if joined then (Client.stop_resets, record s { thread_count = 0 }) else (Client.stop_joins, s)

  -- The loop of `drain`.
  abbrev pub barrier_waited : Bool → Shared A → Client A × Shared A
  barrier_waited save s =
      if ltb 0 s.pending then (Client.barrier_waits save, s) else (Client.barrier_restores save, s)

  abbrev pub barrier_locked : Shared A → Client A × Shared A
  barrier_locked s =
      if s.locked
      then (Client.barrier_awaits, s)
      else (Client.barrier_saves, record s { locked = true })

  -- The loop of `flush`.
  abbrev pub flush_waited : Bool → Shared A → Client A × Shared A
  flush_waited save s =
      if ltb 0 (size s) then (Client.flush_waits save, s) else (Client.flush_restores save, s)

  -- The test of `open`.
  abbrev pub open_tested : ℕ → Shared A → Client A × Shared A
  open_tested n s = if ltb 0 s.thread_count then (Client.done, s) else (Client.opens n, s)
