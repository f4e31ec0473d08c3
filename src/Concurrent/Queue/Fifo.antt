-- ===== src/Concurrent/Queue/Fifo.antt =====
-- The order in which opencog/util/concurrent_queue.h hands its items out: any history of calls, in
-- the order in which they got the lock.
use cogutil.Base.{
  List, [], ◌∷◌, ◌++◌, Option, none, some, ◌≡◌, append_assoc, append-nil, arith, if◌then◌else◌, sym,
  ◌∙◌, ap,
}
use cogutil.Concurrent.Chan.{Chan, Outcome, returns, throws, waits}
use cogutil.Concurrent.Queue.{push, try_get, pop, wait_and_take_all, barrier, cancel, cancel_reset}

pub data Call {ℓ} (A : Type ℓ) : Type ℓ where
  pushes : A → Call A
  try_gets pops takes_all barriers cancels resets : Call A

module _ {ℓ} {A : Type ℓ} where
  -- The items that a finished call hands to its caller.
  abbrev pub handed : Outcome A (Option A) → List A
  handed (returns (some x) c s) = x ∷ []
  handed (returns none c s) = []
  handed throws = []
  handed waits = []

  abbrev pub handed_all : Outcome A (List A) → List A
  handed_all (returns xs c s) = xs
  handed_all throws = []
  handed_all waits = []

  -- The state that a call leaves: one that throws, or goes to wait, changes nothing.
  abbrev pub after {κ} : {R : Type κ} → Chan A → Outcome A R → Chan A
  after c (returns r c' s) = c'
  after c throws = c
  after c waits = c

  unfoldable pub step : Call A → Chan A → Chan A
  step (pushes x) c = after c (push x c)
  step try_gets c = after c (try_get c)
  step pops c = after c (pop c)
  step takes_all c = after c (wait_and_take_all c)
  step barriers c = after c (barrier c)
  step cancels c = after c (cancel c)
  step resets c = after c (cancel_reset c)

  unfoldable pub output : Call A → Chan A → List A
  output try_gets c = handed (try_get c)
  output pops c = handed (pop c)
  output takes_all c = handed_all (wait_and_take_all c)
  output _ c = []

  -- The items that a call gets into the queue: those pushed while it is not canceled.
  unfoldable pub input : Call A → Chan A → List A
  input (pushes x) c = if c.is_canceled then [] else x ∷ []
  input _ c = []

  step-fifo : (k : Call A) (c : Chan A) → output k c ++ (step k c).items ≡ c.items ++ input k c
  unfolding step output input push try_get pop wait_and_take_all barrier cancel cancel_reset
  step-fifo (pushes x) c = ground (arith, append-nil c.items)
  step-fifo _ c = ground (arith, append-nil c.items)

  unfoldable pub run : List (Call A) → Chan A → Chan A
  unfolding step
  run [] c = c
  run (k ∷ ks) c = run ks (step k c)

  unfoldable pub outputs : List (Call A) → Chan A → List A
  unfolding output step
  outputs [] c = []
  outputs (k ∷ ks) c = output k c ++ outputs ks (step k c)

  unfoldable pub inputs : List (Call A) → Chan A → List A
  unfolding input step
  inputs [] c = []
  inputs (k ∷ ks) c = input k c ++ inputs ks (step k c)

  -- After any history of calls, the items handed out so far, in order, and then those that are
  -- still in the queue, are those that were there at first and then those pushed, in order:
  -- nothing is lost, made up, handed out twice or out of order, whatever is canceled in between.
  pub outputs-fifo :
      (ks : List (Call A)) (c : Chan A) → outputs ks c ++ (run ks c).items ≡ c.items ++ inputs ks c
  unfolding outputs inputs run
  outputs-fifo [] c = sym (append-nil c.items)
  outputs-fifo (k ∷ ks) c =
      append_assoc (output k c) (outputs ks (step k c)) (run ks (step k c)).items
      ∙ ap (◌++◌ (output k c)) (outputs-fifo ks (step k c))
      ∙ sym (append_assoc (output k c) (step k c).items (inputs ks (step k c)))
      ∙ ap (λ xs. xs ++ inputs ks (step k c)) (step-fifo k c)
      ∙ append_assoc c.items (input k c) (inputs ks (step k c))
