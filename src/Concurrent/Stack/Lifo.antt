-- ===== src/Concurrent/Stack/Lifo.antt =====
-- The order in which opencog/util/concurrent_stack.h hands its items out.
use cogutil.Base.{
  false, List, [], ◌∷◌, ◌++◌, Option, none, some, ◌≡◌, refl, arith, if◌then◌else◌, append_assoc,
  append-nil, length, length-append, ap, sym, subst, map,
}
use mathlib.Core.List.{Perm, reverse, reverse-cons, perm_append_comm}
use mathlib.Core.List.Perm
use cogutil.Concurrent.Chan.{Chan, Outcome, returns, throws, waits}
use cogutil.Concurrent.Stack.{push, try_pop, pop, wait_and_take_all, barrier, cancel, cancel_reset}

pub data Call {ℓ} (A : Type ℓ) : Type ℓ where
  pushes : A → Call A
  try_pops pops takes_all barriers cancels resets : Call A

module _ {ℓ} {A : Type ℓ} where
  -- The items that a finished call hands to its caller.
  abbrev pub handed : Outcome A (Option A) → List A
  handed (returns (some x) c s) = x ∷ []
  handed (returns none c s) = []
  handed throws = []
  handed waits = []

  abbrev pub handed_all : Outcome A (List A) → List A
  handed_all (returns xs c s) = xs
  handed_all throws = []
  handed_all waits = []

  -- The state that a call leaves: one that throws, or goes to wait, changes nothing.
  abbrev pub after {κ} : {R : Type κ} → Chan A → Outcome A R → Chan A
  after c (returns r c' s) = c'
  after c throws = c
  after c waits = c

  unfoldable pub step : Call A → Chan A → Chan A
  step (pushes x) c = after c (push x c)
  step try_pops c = after c (try_pop c)
  step pops c = after c (pop c)
  step takes_all c = after c (wait_and_take_all c)
  step barriers c = after c (barrier c)
  step cancels c = after c (cancel c)
  step resets c = after c (cancel_reset c)

  unfoldable pub output : Call A → Chan A → List A
  output try_pops c = handed (try_pop c)
  output pops c = handed (pop c)
  output takes_all c = handed_all (wait_and_take_all c)
  output _ c = []

  -- The items that a call gets onto the stack: those pushed while it is not canceled.
  unfoldable pub input : Call A → Chan A → List A
  input (pushes x) c = if c.is_canceled then [] else x ∷ []
  input _ c = []

  -- What is handed out comes off the top, what is pushed goes on it.
  step-lifo : (k : Call A) (c : Chan A) → output k c ++ (step k c).items ≡ input k c ++ c.items
  unfolding step output input push try_pop pop wait_and_take_all barrier cancel cancel_reset
  step-lifo (pushes x) c = ground arith
  step-lifo _ c = ground (arith, append-nil c.items)

  unfoldable pub run : List (Call A) → Chan A → Chan A
  unfolding step
  run [] c = c
  run (k ∷ ks) c = run ks (step k c)

  unfoldable pub outputs : List (Call A) → Chan A → List A
  unfolding output step
  outputs [] c = []
  outputs (k ∷ ks) c = output k c ++ outputs ks (step k c)

  unfoldable pub inputs : List (Call A) → Chan A → List A
  unfolding input step
  inputs [] c = []
  inputs (k ∷ ks) c = input k c ++ inputs ks (step k c)

  swap_fronts : (xs ys zs : List A) → Perm (xs ++ (ys ++ zs)) (ys ++ (xs ++ zs))
  swap_fronts xs ys zs =
      rw (← append_assoc xs ys zs, ← append_assoc ys xs zs)
        (Perm.append_right zs (perm_append_comm xs ys))

  -- After any history of calls, the items handed out and those still on the stack are, together
  -- and as often, those that were there at first and those pushed.
  pub outputs-perm :
      (ks : List (Call A)) (c : Chan A)
      → Perm (outputs ks c ++ (run ks c).items) (inputs ks c ++ c.items)
  unfolding outputs inputs run
  outputs-perm [] c = Perm.refl c.items
  outputs-perm (k ∷ ks) c =
      let out = output k c in
      let c' = step k c in
      let ins = inputs ks c' in
      rw (append_assoc out (outputs ks c') (run ks c').items, append_assoc (input k c) ins c.items)
        (Perm.trans (Perm.append_left out (outputs-perm ks c')) (
          Perm.trans (swap_fronts out ins c'.items) (
            subst (λ zs. Perm (ins ++ zs) (input k c ++ (ins ++ c.items))) (sym (step-lifo k c))
              (swap_fronts ins (input k c) c.items))))

  abbrev pub push_calls : List A → List (Call A)
  push_calls = map pushes

  abbrev pub pop_calls : List A → List (Call A)
  pop_calls = map (λ x. pops)

  run-push_calls :
      (xs : List A) (c : Chan A)
      → c.is_canceled ≡ false
      → run (push_calls xs) c ≡ record c { items = reverse xs ++ c.items }
  unfolding run step push
  run-push_calls [] c h = refl
  run-push_calls (x ∷ xs) c h =
      rw (h, reverse-cons x xs, append_assoc (reverse xs) (x ∷ []) c.items)
        (run-push_calls xs (record c { items = x ∷ c.items; is_canceled = false }) refl)

  -- One pop for each item on top.
  pops_all :
      (xs zs ys : List A)
      → length xs ≡ length zs
      → (outputs (pop_calls zs) (record { items = xs ++ ys; is_canceled = false }) ≡ xs)
        × (run (pop_calls zs) (record { items = xs ++ ys; is_canceled = false })
            ≡ record { items = ys; is_canceled = false })
  unfolding outputs run pop
  pops_all [] [] ys e = (refl, refl)
  pops_all (x ∷ xs) (z ∷ zs) ys e = ground (arith, pops_all xs zs ys)
  pops_all [] (z ∷ zs) ys e = absurd (omega arith)
  pops_all (x ∷ xs) [] ys e = absurd (omega arith)

  length-reverse : (xs : List A) → length (reverse xs) ≡ length xs
  length-reverse [] = refl
  length-reverse (x ∷ xs) =
      omega (
        arith,
        ap length (reverse-cons x xs),
        length-append (reverse xs) (x ∷ []),
        length-reverse xs,
      )

  -- Items that are pushed one after the other on a stack that is not canceled come off in the
  -- reverse order by as many pops, and the stack is then as it was before.
  pops-pushes :
      (xs : List A) (c : Chan A)
      → c.is_canceled ≡ false
      → (outputs (pop_calls xs) (run (push_calls xs) c) ≡ reverse xs)
        × (run (pop_calls xs) (run (push_calls xs) c) ≡ c)
  pops-pushes xs c h =
      let popped = pops_all (reverse xs) xs c.items (length-reverse xs) in
      rw (run-push_calls xs c h, h) popped
