-- ===== src/Concurrent/Pool/Wakeups.antt =====
-- Threads that share one pool of opencog/util/pool.h.
use cogutil.Base.{Bool, true, false, List, [], ◌∷◌, ◌≡◌, refl, ◌<◌, length, length-append, arith}
use cogutil.Concurrent.Chan
use cogutil.Concurrent.Chan.{Chan, returns, throws, waits}
use cogutil.Concurrent.Monitor.{Monitor, Event, start, forget, schedule}
use cogutil.Concurrent.Monitor.Wakeup.{Laws, Fair, IsQuiet, IsIdle, quiescent_lem}
use cogutil.Concurrent.Pool.{create, borrow, give_back}

data Call {ℓ} (A : Type ℓ) : Type ℓ where
  borrows : Call A
  gives_back : A → Call A

module _ {ℓ} {A : Type ℓ} where
  -- No pool is canceled, so the second clause is never used by a schedule.
  abbrev on_pool : Chan.Outcome A (Unit {0}) → Bool → Chan.Outcome A (Unit {0})
  on_pool o false = o
  on_pool o true = throws

  unfoldable exec : Call A → Chan A → Chan.Outcome A (Unit {0})
  exec borrows c = on_pool (forget (borrow c)) c.is_canceled
  exec (gives_back x) c = on_pool (forget (give_back x c)) c.is_canceled

  abbrev borrowing : Call A → Bool
  borrowing borrows = true
  borrowing _ = false

  abbrev pool : Monitor A (Call A)
  pool = record { exec = exec; allowed = λ k. true }

  exec-Fair : (k : Call A) (c : Chan A) → true ≡ true → Fair borrowing k c (exec k c)
  unfolding exec borrow give_back
  exec-Fair borrows c h = ground arith
  exec-Fair (gives_back x) c h = ground (arith, length-append c.items (x ∷ []))

  pool-Laws : Laws pool
  pool-Laws = record { waiter = borrowing; waiter_allowed = λ k h. refl; fair = exec-Fair }

  -- No wakeup is lost: in every interleaving of any number of threads, spurious wakeups included,
  -- once no woken thread and no notification is on its way, a thread that still sleeps does so on a
  -- pool that is empty.
  no_lost_wakeup_in_pool :
      (es : List (Event (Call A)))
      → IsQuiet (schedule pool es (start create))
      → 0 < length (schedule pool es (start create)).asleep
      → IsIdle (schedule pool es (start create)).chan
  no_lost_wakeup_in_pool es = quiescent_lem pool pool-Laws es create
