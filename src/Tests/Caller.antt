-- ===== src/Tests/Caller.antt =====
-- Threads around one async_caller.
use cogutil.Base.{ℕ, false, [], ◌∷◌, ◌++◌, List, ◌≡◌, refl, arith, ◌+◌}
use cogutil.Concurrent.Monitor.{pick}
use cogutil.Concurrent.Queue
use cogutil.Async.Threads.{total, SameItems}
use cogutil.Async.Caller.{Writer, Client, writer_step, client_step}
use cogutil.Async.Caller.Schedule.{System, Event, create, fire, run}
use cogutil.Async.Caller.Sound.{client_holds, writer_holds}
use cogutil.Async.Caller.Exact
use cogutil.Async.Caller.Progress

caller_program : Unit {0}
unfolding run fire pick writer_step client_step Queue.create Queue.push Queue.pop Queue.take_front
    Queue.size Queue.cancel Queue.cancel_reset Queue.is_empty
caller_program = tt

abbrev moves : List (Event ℕ)
moves = Event.moves 0 3 ∷ Event.moves 0 3 ∷ Event.moves 0 3 ∷ Event.moves 0 3 ∷ []

-- Two elements are enqueued, and the second writer thread writes the second one before the first
-- writer thread has written the first one.
abbrev two_writes : List (Event ℕ)
two_writes =
    (Event.enqueues 7 ∷ moves)
    ++ (moves
        ++ ((Event.enqueues 8 ∷ moves)
            ++ (moves ++ (Event.writes 0 ∷ Event.writes 1 ∷ Event.writes 0 ∷ Event.writes 0 ∷ []))))

second_written_first : (run two_writes (create 2)).shared.log ≡ 8 ∷ []
unfolding caller_program
second_written_first = refl

written_once_example : SameItems {A = ℕ} (8 ∷ 7 ∷ []) (7 ∷ 8 ∷ [])
unfolding caller_program
written_once_example = Exact.written_once 2 two_writes

abbrev no_items : List ℕ
no_items = []

-- An element is enqueued and written, while a thread in `barrier` waits for it.
abbrev fenced_write : List (Event ℕ)
fenced_write =
    (Event.enqueues 7 ∷ moves)
    ++ (moves
        ++ (Event.barriers
            ∷ Event.moves 0 0
            ∷ Event.moves 0 0
            ∷ Event.writes 0
            ∷ Event.writes 0
            ∷ Event.writes 0
            ∷ Event.writes 0
            ∷ Event.writes 0
            ∷ []))

barrier_lem_example :
    SameItems {A = ℕ} (7 ∷ []) (7 ∷ [])
    × (no_items ≡ [])
    × (total (client_holds {A = ℕ}) (Client.done ∷ [])
          + total (writer_holds {A = ℕ}) (Writer.popping ∷ [])
        ≡ 0)
unfolding caller_program
barrier_lem_example =
    Exact.barrier_lem 1 fenced_write 0 0 false (Client.done ∷ [])
      (client_step false 0 Client.barrier_waits (run fenced_write (create 1)).shared).1 refl refl

-- Two elements are queued behind a thread in `barrier`.
abbrev queued : System ℕ
queued =
    run
      ((Event.enqueues 7 ∷ moves)
        ++ (moves ++ ((Event.enqueues 8 ∷ moves) ++ (moves ++ (Event.barriers ∷ moves)))))
      (create 1)

barrier_returns_example :
    ((run (Progress.turns (7 ∷ 8 ∷ [])) queued).shared.log ≡ 7 ∷ 8 ∷ [])
    × ((run (Progress.turns (7 ∷ 8 ∷ [])) queued).clients ≡ queued.clients)
    × ((client_step false 0 Client.barrier_waits
          (run (Progress.turns (7 ∷ 8 ∷ [])) queued).shared).0
        ≡ Client.done)
unfolding caller_program
barrier_returns_example = Progress.barrier_returns false 0 queued [] refl refl (omega arith)
