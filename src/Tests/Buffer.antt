-- ===== src/Tests/Buffer.antt =====
-- Threads around one async_buffer.
use cogutil.Base.{ℕ, false, [], ◌∷◌, ◌++◌, List, ◌≡◌, refl, ◌+◌}
use cogutil.Base.Order.{nat_less}
use cogutil.Concurrent.Monitor.{pick}
use cogutil.Concurrent.Set
use cogutil.Sorted
use cogutil.Async.Threads.{total, SameItems}
use cogutil.Async.Buffer.{Writer, Client, writer_step, client_step}
use cogutil.Async.Buffer.Schedule.{Event, create, fire, run}
use cogutil.Async.Buffer.Sound.{client_holds, writer_holds}
use cogutil.Async.Buffer.Exact

buffer_program : Unit {0}
unfolding run fire pick writer_step client_step Set.create Set.insert Set.get Set.take_first
    Set.size Set.cancel Set.cancel_reset Set.is_empty Sorted.insert
buffer_program = tt

abbrev moves : List (Event ℕ)
moves = Event.moves 0 3 ∷ Event.moves 0 3 ∷ Event.moves 0 3 ∷ Event.moves 0 3 ∷ []

-- Two elements are enqueued, and the second writer thread writes the second one before the first
-- writer thread has written the first one.
abbrev two_writes : List (Event ℕ)
two_writes =
    (Event.inserts 7 ∷ moves)
    ++ (moves
        ++ ((Event.inserts 8 ∷ moves)
            ++ (moves
                ++ (Event.writes 0
                    ∷ Event.writes 0
                    ∷ Event.writes 1
                    ∷ Event.writes 0
                    ∷ Event.writes 0
                    ∷ Event.writes 0
                    ∷ []))))

second_written_first : (run nat_less two_writes (create 2)).shared.log ≡ 8 ∷ []
unfolding buffer_program
second_written_first = refl

written_once_by_buffer_example : SameItems {A = ℕ} (8 ∷ 7 ∷ []) (7 ∷ 8 ∷ [])
unfolding buffer_program
written_once_by_buffer_example = Exact.written_once_by_buffer nat_less 2 two_writes

abbrev no_items : List ℕ
no_items = []

-- An element is enqueued and written, while a thread in `barrier` waits for it.
abbrev fenced_write : List (Event ℕ)
fenced_write =
    (Event.inserts 7 ∷ moves)
    ++ (moves
        ++ (Event.barriers
            ∷ Event.moves 0 0
            ∷ Event.moves 0 0
            ∷ Event.moves 0 0
            ∷ Event.moves 0 0
            ∷ Event.writes 0
            ∷ Event.writes 0
            ∷ Event.writes 0
            ∷ Event.writes 0
            ∷ Event.writes 0
            ∷ Event.writes 0
            ∷ []))

barrier_of_buffer_example :
    SameItems {A = ℕ} (7 ∷ []) (7 ∷ [])
    × (no_items ≡ [])
    × (total (client_holds {A = ℕ}) (Client.done ∷ [])
          + total (writer_holds {A = ℕ}) (Writer.idle ∷ [])
        ≡ 0)
unfolding buffer_program
barrier_of_buffer_example =
    Exact.barrier_of_buffer nat_less 1 fenced_write 0 0 false false (Client.done ∷ [])
      (client_step nat_less false 0 (Client.barrier_waits false)
        (run nat_less fenced_write (create 1)).shared).1
      refl refl

-- A thread that has made the tests of `insert` before `close` comes into the set after the writer
-- threads have ended; `close` writes its element, and leaves `_pending` at one.
abbrev closes_on_insert : List (Event ℕ)
closes_on_insert =
    Event.inserts 7
    ∷ Event.moves 0 0
    ∷ Event.moves 0 0
    ∷ Event.stops
    ∷ Event.moves 0 0
    ∷ Event.moves 0 0
    ∷ Event.moves 0 0
    ∷ Event.moves 0 0
    ∷ Event.moves 0 0
    ∷ Event.writes 0
    ∷ Event.writes 0
    ∷ Event.moves 0 0
    ∷ Event.moves 0 0
    ∷ Event.moves 1 0
    ∷ Event.moves 0 0
    ∷ Event.moves 0 0
    ∷ Event.moves 0 0
    ∷ Event.moves 1 0
    ∷ Event.moves 0 0
    ∷ Event.moves 0 0
    ∷ Event.moves 0 0
    ∷ Event.moves 0 0
    ∷ []

pending_stays :
    let s = (run nat_less closes_on_insert (create 1)).shared in
    (s.log ≡ 7 ∷ []) × (s.store.items ≡ []) × (s.thread_count ≡ 0) × (s.pending ≡ 1)
unfolding buffer_program
pending_stays = (refl, refl, refl, refl)
