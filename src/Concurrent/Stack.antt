-- ===== src/Concurrent/Stack.antt =====
-- opencog/util/concurrent_stack.h: each method is the critical section that it runs under
-- `the_mutex`. The top of `the_stack` is the head of the list.
pub mod Lifo
pub mod Wakeups
use cogutil.Base.{
  ℕ, Bool, true, false, ◌&&◌, not, List, [], ◌∷◌, Option, none, some, if◌then◌else◌, is_nil, length,
}
use cogutil.Concurrent.Chan.{Chan, quiet, notify_one, notify_all, Outcome, returns, throws, waits}

module _ {ℓ} {A : Type ℓ} where
  unfoldable pub create : Chan A
  create = record { items = []; is_canceled = false }

  unfoldable pub push : A → Chan A → Outcome A (Unit {0})
  push item c =
      if c.is_canceled then throws else returns tt (record c { items = item ∷ c.items }) notify_one

  unfoldable pub is_empty : Chan A → Outcome A Bool
  is_empty c = if c.is_canceled then throws else returns (is_nil c.items) c quiet

  unfoldable pub size : Chan A → ℕ
  size c = length c.items

  -- `value = the_stack.top(); the_stack.pop();`, where it is known not to be empty.
  unfoldable pub take_top : List A → Bool → Outcome A (Option A)
  take_top [] canceled = returns none (record { items = []; is_canceled = canceled }) quiet
  take_top (x ∷ xs) canceled =
      returns (some x) (record { items = xs; is_canceled = canceled }) quiet

  -- `false` is `none`.
  unfoldable pub try_pop : Chan A → Outcome A (Option A)
  unfolding take_top
  try_pop c = if c.is_canceled then throws else take_top c.items c.is_canceled

  -- The inner loop ends with an item there or the flag set, so the outer one runs once.
  unfoldable pub pop : Chan A → Outcome A (Option A)
  unfolding take_top
  pop c =
      if is_nil c.items && not c.is_canceled
      then waits
      else if c.is_canceled
      then throws
      else take_top c.items c.is_canceled

  -- The loop is left by `break` when canceled: whatever is there is handed over, the top first.
  unfoldable pub wait_and_take_all : Chan A → Outcome A (List A)
  wait_and_take_all c =
      if is_nil c.items && not c.is_canceled
      then waits
      else returns c.items (record c { items = [] }) quiet

  unfoldable pub barrier : Chan A → Outcome A (Unit {0})
  barrier c =
      if is_nil c.items && not c.is_canceled
      then waits
      else if c.is_canceled
      then throws
      else returns tt c quiet

  unfoldable pub cancel_reset : Chan A → Outcome A (Unit {0})
  cancel_reset c = returns tt (record c { is_canceled = false }) quiet

  unfoldable pub cancel : Chan A → Outcome A (Unit {0})
  cancel c =
      if c.is_canceled then throws else returns tt (record c { is_canceled = true }) notify_all
