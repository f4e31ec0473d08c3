-- ===== src/Concurrent/Set/Wakeups.antt =====
-- Threads that share one set of opencog/util/concurrent_set.h: who is woken, and who is not.
use cogutil.Base.{
  ℕ, Bool, true, false, List, ◌≡◌, refl, ◌<◌, length, ltb, Option, none, some, arith, if◌then◌else◌,
}
use cogutil.Base.Order.{Less}
use cogutil.Concurrent.Chan
use cogutil.Concurrent.Chan.{Chan}
use cogutil.Concurrent.Monitor.{Monitor, Event, start, forget, schedule}
use cogutil.Concurrent.Monitor.Wakeup.{Laws, Fair, IsQuiet, IsIdle, quiescent_lem}
use cogutil.Concurrent.Set.{
  create, insert, erase, clear, try_get, try_get_many, take_many, take_first, take_last, taken, get,
  wait_and_take_all, barrier, cancel, cancel_reset,
}
use cogutil.Concurrent.Set.Order.{
  Call, inserts, erases, clears, gets, takes_all, barriers, cancels, resets, try_gets,
  try_gets_many,
}
use cogutil.Concurrent.Set.Take.{
  take_first-Front, take_last-Back, take_many-Split, OneLess, Front-OneLess, Back-OneLess,
  length-Split,
}
use cogutil.Sorted.Laws.{length-insert-le, length-erase-le}

module _ {ℓ} {A : Type ℓ} (o : Less A) where
  unfoldable pub exec : Call A → Chan A → Chan.Outcome A (Unit {0})
  exec (inserts x) c = forget (insert o x c)
  exec (erases x) c = forget (erase o x c)
  exec clears c = forget (clear c)
  exec gets c = forget (get c)
  exec takes_all c = forget (wait_and_take_all c)
  exec barriers c = forget (barrier c)
  exec cancels c = forget (cancel c)
  exec resets c = forget (cancel_reset c)
  exec (try_gets r) c = forget (try_get r c)
  exec (try_gets_many n r) c = forget (try_get_many n r c)

  abbrev not_barrier : Call A → Bool
  not_barrier barriers = false
  not_barrier _ = true

  abbrev blocking : Call A → Bool
  blocking gets = true
  blocking takes_all = true
  blocking _ = false

  -- Threads that make every call, and threads that make all but `barrier`.
  abbrev pub set : Monitor A (Call A)
  set = record { exec = exec; allowed = λ k. true }

  abbrev pub set_no_barrier : Monitor A (Call A)
  set_no_barrier = record { exec = exec; allowed = not_barrier }

  blocking_allowed : (k : Call A) → blocking k ≡ true → not_barrier k ≡ true
  blocking_allowed barriers h = h
  blocking_allowed _ h = refl

  taken-Fair :
      (k : Call A) (c : Chan A) (p : Option (A × List A))
      → OneLess c.items p
      → Fair blocking k c (forget (taken c p))
  taken-Fair k c none e = ground arith
  taken-Fair k c (some (x, rest)) e = ground arith

  try_get-Fair : (r : Bool) (c : Chan A) → Fair blocking (try_gets r) c (forget (try_get r c))
  unfolding try_get
  try_get-Fair true c =
      taken-Fair (try_gets true) c (take_last c.items)
        (Back-OneLess c.items (take_last c.items) (take_last-Back c.items))
  try_get-Fair false c =
      taken-Fair (try_gets false) c (take_first c.items)
        (Front-OneLess c.items (take_first c.items) (take_first-Front c.items))

  try_get_many-Fair :
      (n : ℕ) (r : Bool) (c : Chan A)
      → Fair blocking (try_gets_many n r) c (forget (try_get_many n r c))
  unfolding try_get_many
  try_get_many-Fair n r c =
      ground (arith, length-Split r c.items (take_many r n' c.items) (take_many-Split r n' c.items))
    where
      n' : ℕ
      n' = if ltb (length c.items) n then length c.items else n

  get-Fair : (c : Chan A) → Fair blocking gets c (forget (get c))
  unfolding get
  get-Fair c = ground (
    arith,
    taken-Fair gets c (take_first c.items)
        (Front-OneLess c.items (take_first c.items) (take_first-Front c.items)),
  )

  exec-Fair : (k : Call A) (c : Chan A) → not_barrier k ≡ true → Fair blocking k c (exec k c)
  unfolding exec insert erase clear wait_and_take_all cancel cancel_reset
  exec-Fair (inserts x) c h = ground (arith, length-insert-le o x c.items)
  exec-Fair (erases x) c h = ground (arith, length-erase-le o x c.items)
  exec-Fair barriers c h = ground arith
  exec-Fair (try_gets r) c h = try_get-Fair r c
  exec-Fair (try_gets_many n r) c h = try_get_many-Fair n r c
  exec-Fair gets c h = get-Fair c
  exec-Fair _ c h = ground arith

  set-Laws : Laws set_no_barrier
  set-Laws = record { waiter = blocking; waiter_allowed = blocking_allowed; fair = exec-Fair }

  -- No wakeup is lost among threads that make any calls but `barrier`: in every interleaving of
  -- any number of them from the constructor, spurious wakeups included, once no woken thread and
  -- no notification is on its way, a thread that still sleeps does so on a set that is empty and
  -- not canceled.
  pub no_lost_wakeup_on_set :
      (es : List (Event (Call A)))
      → IsQuiet (schedule set_no_barrier es (start create))
      → 0 < length (schedule set_no_barrier es (start create)).asleep
      → IsIdle (schedule set_no_barrier es (start create)).chan
  no_lost_wakeup_on_set es = quiescent_lem set_no_barrier set-Laws es create
