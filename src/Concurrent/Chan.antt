-- ===== src/Concurrent/Chan.antt =====
-- The state that `the_mutex` guards, and the ways in which a critical section ends.
use cogutil.Base.{Bool, List}

-- The container and the flag. The first item is the next one to be taken.
pub record Chan {ℓ} (A : Type ℓ) : Type ℓ where
  pub items : List A
  pub is_canceled : Bool

-- What is sent to `the_cond` after the lock is released.
pub data Signal : Type 0 where
  quiet notify_one notify_all : Signal

-- A section returns a value, throws `Canceled` with the state as it was, or waits on `the_cond`:
-- it lets the lock go and, when woken, runs the tests of its loop again from the start.
pub data Outcome {ℓ κ} (A : Type ℓ) (R : Type κ) : Type (ℓ ⊔ κ) where
  returns : R → Chan A → Signal → Outcome A R
  throws : Outcome A R
  waits : Outcome A R
