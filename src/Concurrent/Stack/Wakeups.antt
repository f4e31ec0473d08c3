-- ===== src/Concurrent/Stack/Wakeups.antt =====
-- Threads that share one stack of opencog/util/concurrent_stack.h: who is woken, and who is not.
use cogutil.Base.{Bool, true, false, List, [], ◌∷◌, ◌≡◌, refl, ◌<◌, length, arith}
use cogutil.Concurrent.Chan
use cogutil.Concurrent.Chan.{Chan}
use cogutil.Concurrent.Monitor.{Monitor, Event, invoke, resume, send_one, start, forget, schedule}
use cogutil.Concurrent.Monitor.Wakeup.{Laws, Fair, IsQuiet, IsIdle, quiescent_lem}
use cogutil.Concurrent.Stack.{
  create, push, try_pop, pop, wait_and_take_all, barrier, cancel, cancel_reset,
}
use cogutil.Concurrent.Stack.Lifo.{
  Call, pushes, try_pops, pops, takes_all, barriers, cancels, resets,
}

module _ {ℓ} {A : Type ℓ} where
  unfoldable pub exec : Call A → Chan A → Chan.Outcome A (Unit {0})
  exec (pushes x) c = forget (push x c)
  exec try_pops c = forget (try_pop c)
  exec pops c = forget (pop c)
  exec takes_all c = forget (wait_and_take_all c)
  exec barriers c = forget (barrier c)
  exec cancels c = forget (cancel c)
  exec resets c = forget (cancel_reset c)

  abbrev not_barrier : Call A → Bool
  not_barrier barriers = false
  not_barrier _ = true

  abbrev blocking : Call A → Bool
  blocking pops = true
  blocking takes_all = true
  blocking _ = false

  -- Threads that make every call, and threads that make all but `barrier`.
  abbrev pub stack : Monitor A (Call A)
  stack = record { exec = exec; allowed = λ k. true }

  abbrev pub stack_no_barrier : Monitor A (Call A)
  stack_no_barrier = record { exec = exec; allowed = not_barrier }

  blocking_allowed : (k : Call A) → blocking k ≡ true → not_barrier k ≡ true
  blocking_allowed barriers h = h
  blocking_allowed _ h = refl

  exec-Fair : (k : Call A) (c : Chan A) → not_barrier k ≡ true → Fair blocking k c (exec k c)
  unfolding exec push try_pop pop wait_and_take_all cancel cancel_reset
  exec-Fair barriers c h = ground arith
  exec-Fair _ c h = ground arith

  stack-Laws : Laws stack_no_barrier
  stack-Laws = record { waiter = blocking; waiter_allowed = blocking_allowed; fair = exec-Fair }

  -- No wakeup is lost among threads that make any calls but `barrier`: in every interleaving of
  -- any number of them from the constructor, spurious wakeups included, once no woken thread and
  -- no notification is on its way, a thread that still sleeps does so on a stack that is empty
  -- and not canceled.
  no_lost_wakeup_on_stack :
      (es : List (Event (Call A)))
      → IsQuiet (schedule stack_no_barrier es (start create))
      → 0 < length (schedule stack_no_barrier es (start create)).asleep
      → IsIdle (schedule stack_no_barrier es (start create)).chan
  no_lost_wakeup_on_stack es = quiescent_lem stack_no_barrier stack-Laws es create

  -- With `barrier` a wakeup is lost: if a thread in `barrier` sleeps beside others and an item is
  -- pushed, the one notification may wake that thread, which returns; then the item lies on the
  -- stack, the others sleep, and nothing is on its way.
  barrier_loses_wakeup_on_stack :
      (x : A) (rest : List (Call A))
      → schedule stack
          (invoke (pushes x) ∷ send_one 0 ∷ resume 0 ∷ [])
          (record (start create) { asleep = barriers ∷ rest })
        ≡ record (start (record { items = x ∷ []; is_canceled = false })) { asleep = rest }
  unfolding schedule exec push barrier create
  barrier_loses_wakeup_on_stack x rest = refl
