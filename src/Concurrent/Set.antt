-- ===== src/Concurrent/Set.antt =====
-- opencog/util/concurrent_set.h: each method is the critical section that it runs under
-- `the_mutex`. `the_set` is a `std::set`, a list in ascending order.
pub mod Take
pub mod Order
pub mod Wakeups
use cogutil.Base.{
  ℕ, zero, suc, Bool, true, false, ◌&&◌, not, List, [], ◌∷◌, ◌++◌, Option, none, some,
  if◌then◌else◌, is_nil, length, ltb,
}
use cogutil.Base.Order.{Less}
use cogutil.Concurrent.Chan.{Chan, quiet, notify_one, notify_all, Outcome, returns, throws, waits}
use cogutil.Sorted

module _ {ℓ} {A : Type ℓ} where
  unfoldable pub create : Chan A
  create = record { items = []; is_canceled = false }

  unfoldable pub is_empty : Chan A → Outcome A Bool
  is_empty c = if c.is_canceled then throws else returns (is_nil c.items) c quiet

  unfoldable pub size : Chan A → ℕ
  size c = length c.items

  unfoldable pub clear : Chan A → Outcome A (Unit {0})
  clear c = returns tt (record c { items = [] }) quiet

  -- `value = *the_set.cbegin()`, and the set without it.
  unfoldable pub take_first : List A → Option (A × List A)
  take_first [] = none
  take_first (x ∷ xs) = some (x, xs)

  abbrev pub one_more : A → Option (A × List A) → Option (A × List A)
  one_more x none = some (x, [])
  one_more x (some (y, rest)) = some (y, x ∷ rest)

  -- `value = *the_set.crbegin()`, and the set without it.
  unfoldable pub take_last : List A → Option (A × List A)
  take_last [] = none
  take_last (x ∷ xs) = one_more x (take_last xs)

  abbrev pub taken : Chan A → Option (A × List A) → Outcome A (Option A)
  taken c none = returns none c quiet
  taken c (some (x, rest)) = returns (some x) (record c { items = rest }) quiet

  -- `false` is `none`.
  unfoldable pub try_get : Bool → Chan A → Outcome A (Option A)
  unfolding take_first take_last
  try_get reverse c = taken c (if reverse then take_last c.items else take_first c.items)

  abbrev pub put_first : A → List A × List A → List A × List A
  put_first x (vec, rest) = (x ∷ vec, rest)

  -- The loops of `try_get` for many: `j` rounds, the values taken and what is left.
  unfoldable pub take_many : Bool → ℕ → List A → List A × List A
  unfolding take_first take_last
  take_many reverse zero xs = ([], xs)
  take_many reverse (suc j) xs = elim (if reverse then take_last xs else take_first xs) [
    | none ↦ ([], xs)
    | some (x, rest) ↦ put_first x (take_many reverse j rest)
  ]

  unfoldable pub try_get_many : ℕ → Bool → Chan A → Outcome A (List A)
  unfolding take_many
  try_get_many nelt reverse c =
      if is_nil c.items
      then returns [] c quiet
      else let n = if ltb (length c.items) nelt then length c.items else nelt in
        let (vec, rest) = take_many reverse n c.items in
        returns vec (record c { items = rest }) quiet

  -- The inner loop ends with an item there or the flag set, so the outer one runs once.
  unfoldable pub get : Chan A → Outcome A (Option A)
  unfolding take_first
  get c =
      if is_nil c.items && not c.is_canceled
      then waits
      else if c.is_canceled
      then throws
      else taken c (take_first c.items)

  -- The loop is left by `break` when canceled: whatever is there is handed over.
  unfoldable pub wait_and_take_all : Chan A → Outcome A (List A)
  wait_and_take_all c =
      if is_nil c.items && not c.is_canceled
      then waits
      else returns c.items (record c { items = [] }) quiet

  unfoldable pub barrier : Chan A → Outcome A (Unit {0})
  barrier c =
      if is_nil c.items && not c.is_canceled
      then waits
      else if c.is_canceled
      then throws
      else returns tt c quiet

  unfoldable pub cancel_reset : Chan A → Outcome A (Unit {0})
  cancel_reset c = returns tt (record c { is_canceled = false }) quiet

  unfoldable pub cancel : Chan A → Outcome A (Unit {0})
  cancel c =
      if c.is_canceled then throws else returns tt (record c { is_canceled = true }) notify_all

module _ {ℓ} {A : Type ℓ} (o : Less A) where
  -- `before < after`; the notification is sent whether or not the item is new.
  unfoldable pub insert : A → Chan A → Outcome A Bool
  insert item c =
      if c.is_canceled
      then throws
      else let items = Sorted.insert o item c.items in
        returns (ltb (length c.items) (length items)) (record c { items = items }) notify_one

  -- The number of items erased.
  unfoldable pub erase : A → Chan A → Outcome A ℕ
  erase item c =
      returns (if Sorted.member o item c.items then 1 else 0)
        (record c { items = Sorted.erase o item c.items }) quiet
