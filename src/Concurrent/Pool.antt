-- ===== src/Concurrent/Pool.antt =====
-- opencog/util/pool.h: the class pool, each method as the section that it runs under `mu`. There is
-- no flag: `is_canceled` stays false. `borrow` gives the resource itself, where the source gives a
-- reference to the place in the queue that it has just given up.
pub mod Wakeups
use cogutil.Base.{ℕ, Bool, false, List, [], ◌∷◌, ◌++◌, length}
use cogutil.Concurrent.Chan.{Chan, notify_one, quiet, Outcome, returns, waits}

module _ {ℓ} {A : Type ℓ} where
  unfoldable pub create : Chan A
  create = record { items = []; is_canceled = false }

  -- The front of a queue that may be empty.
  abbrev pub front : List A → Bool → Outcome A A
  front [] canceled = waits
  front (x ∷ xs) canceled = returns x (record { items = xs; is_canceled = canceled }) quiet

  unfoldable pub borrow : Chan A → Outcome A A
  borrow c = front c.items c.is_canceled

  unfoldable pub give_back : A → Chan A → Outcome A (Unit {0})
  give_back obj c = returns tt (record c { items = c.items ++ obj ∷ [] }) notify_one

  unfoldable pub available : Chan A → ℕ
  available c = length c.items
