-- ===== src/Tests/Queue.antt =====
-- Threads around one queue.
use cogutil.Base.{ℕ, [], ◌∷◌, ◌++◌, List, ◌≡◌, refl, arith}
use cogutil.Concurrent.Monitor.{invoke, send_one, resume, start, schedule, Event}
use cogutil.Concurrent.Monitor.Wakeup.{IsIdle}
use cogutil.Concurrent.Queue
use cogutil.Concurrent.Queue.Fifo
use cogutil.Concurrent.Queue.Wakeups

queue_program : Unit {0}
unfolding schedule Queue.create Wakeups.exec Queue.push Queue.pop Queue.barrier
queue_program = tt

-- A consumer sleeps, a producer pushes, the consumer wakes; then another consumer sleeps.
abbrev queue_calls : List (Event (Fifo.Call ℕ))
queue_calls =
    invoke Fifo.Call.pops
    ∷ invoke (Fifo.Call.pushes 7)
    ∷ send_one 0
    ∷ resume 0
    ∷ invoke Fifo.Call.pops
    ∷ []

no_lost_wakeup_example :
    IsIdle (schedule Wakeups.queue_no_barrier queue_calls (start Queue.create)).chan
unfolding queue_program
no_lost_wakeup_example = Wakeups.no_lost_wakeup queue_calls (refl, refl, refl) (omega arith)

abbrev fifo_calls : List (Fifo.Call ℕ)
fifo_calls =
    Fifo.Call.pushes 1
    ∷ Fifo.Call.pushes 2
    ∷ Fifo.Call.pops
    ∷ Fifo.Call.cancels
    ∷ Fifo.Call.pushes 3
    ∷ Fifo.Call.takes_all
    ∷ []

outputs-fifo_example :
    Fifo.outputs fifo_calls Queue.create ++ (Fifo.run fifo_calls Queue.create).items
    ≡ Queue.create.items ++ Fifo.inputs fifo_calls Queue.create
outputs-fifo_example = Fifo.outputs-fifo fifo_calls Queue.create
