-- ===== src/Concurrent/Queue/Wakeups.antt =====
-- Threads that share one queue of opencog/util/concurrent_queue.h: who is woken, and who is not.
use cogutil.Base.{Bool, true, false, List, [], ◌∷◌, ◌≡◌, refl, ◌<◌, length, length-append, arith}
use cogutil.Concurrent.Chan.{Chan}
use cogutil.Concurrent.Chan
use cogutil.Concurrent.Monitor.{Monitor, Event, invoke, resume, send_one, start, forget, schedule}
use cogutil.Concurrent.Monitor.Wakeup.{Laws, Fair, IsQuiet, IsIdle, quiescent_lem}
use cogutil.Concurrent.Queue.{
  create, push, try_get, pop, wait_and_take_all, barrier, cancel, cancel_reset,
}
use cogutil.Concurrent.Queue.Fifo.{
  Call, pushes, try_gets, pops, takes_all, barriers, cancels, resets,
}

module _ {ℓ} {A : Type ℓ} where
  unfoldable pub exec : Call A → Chan A → Chan.Outcome A (Unit {0})
  exec (pushes x) c = forget (push x c)
  exec try_gets c = forget (try_get c)
  exec pops c = forget (pop c)
  exec takes_all c = forget (wait_and_take_all c)
  exec barriers c = forget (barrier c)
  exec cancels c = forget (cancel c)
  exec resets c = forget (cancel_reset c)

  abbrev not_barrier : Call A → Bool
  not_barrier barriers = false
  not_barrier _ = true

  abbrev blocking : Call A → Bool
  blocking pops = true
  blocking takes_all = true
  blocking _ = false

  -- Threads that make every call, and threads that make all but `barrier`.
  abbrev pub queue : Monitor A (Call A)
  queue = record { exec = exec; allowed = λ k. true }

  abbrev pub queue_no_barrier : Monitor A (Call A)
  queue_no_barrier = record { exec = exec; allowed = not_barrier }

  blocking_allowed : (k : Call A) → blocking k ≡ true → not_barrier k ≡ true
  blocking_allowed barriers h = h
  blocking_allowed _ h = refl

  exec-Fair : (k : Call A) (c : Chan A) → not_barrier k ≡ true → Fair blocking k c (exec k c)
  unfolding exec push try_get pop wait_and_take_all cancel cancel_reset
  exec-Fair (pushes x) c h = ground (arith, length-append c.items (x ∷ []))
  exec-Fair barriers c h = ground arith
  exec-Fair _ c h = ground arith

  queue-Laws : Laws queue_no_barrier
  queue-Laws = record { waiter = blocking; waiter_allowed = blocking_allowed; fair = exec-Fair }

  -- No wakeup is lost among threads that make any calls but `barrier`: in every interleaving of
  -- any number of them from the constructor, spurious wakeups included, once no woken thread and
  -- no notification is on its way, a thread that still sleeps does so on a queue that is empty
  -- and not canceled.
  pub no_lost_wakeup :
      (es : List (Event (Call A)))
      → IsQuiet (schedule queue_no_barrier es (start create))
      → 0 < length (schedule queue_no_barrier es (start create)).asleep
      → IsIdle (schedule queue_no_barrier es (start create)).chan
  no_lost_wakeup es = quiescent_lem queue_no_barrier queue-Laws es create

  -- With `barrier` a wakeup is lost: if a thread in `barrier` sleeps beside others and an item is
  -- pushed, the one notification may wake that thread, which returns; then the item lies in the
  -- queue, the others sleep, and nothing is on its way.
  barrier_loses_wakeup :
      (x : A) (rest : List (Call A))
      → schedule queue
          (invoke (pushes x) ∷ send_one 0 ∷ resume 0 ∷ [])
          (record (start create) { asleep = barriers ∷ rest })
        ≡ record (start (record { items = x ∷ []; is_canceled = false })) { asleep = rest }
  unfolding schedule exec push barrier create
  barrier_loses_wakeup x rest = refl
