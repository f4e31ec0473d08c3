-- ===== src/Concurrent/Set/Order.antt =====
-- Calls of opencog/util/concurrent_set.h after any history of calls.
use cogutil.Base.{
  ℕ, ◌-◌, Bool, true, false, not, ◌&&◌, ◌||◌, List, [], ◌∷◌, Option, none, some, ◌≡◌, refl, inl,
  inr, arith, if◌then◌else◌, is_nil, length, All, ltb, Bool-cases, subst,
}
use mathlib.Core.List.{reverse}
use cogutil.Base.Order.{Less}
use cogutil.Concurrent.Chan.{Chan, Outcome, returns, throws, waits, quiet, notify_one}
use cogutil.Concurrent.Set.{
  create, insert, erase, clear, try_get, try_get_many, take_many, take_first, take_last, taken, get,
  wait_and_take_all, barrier, cancel, cancel_reset,
}
use cogutil.Sorted.{same, Above, IsSorted, member}
use cogutil.Sorted.Laws.{
  insert-IsSorted, erase-IsSorted, member-insert, member-erase, length-insert, length-erase,
  IsSorted-last, IsSorted-append, member-append,
}
use cogutil.Concurrent.Set.Take.{
  Front, Back, take_first-Front, take_last-Back, Split, take_many-Split,
}

pub data Call {ℓ} (A : Type ℓ) : Type ℓ where
  inserts erases : A → Call A
  clears gets takes_all barriers cancels resets : Call A
  try_gets : Bool → Call A
  try_gets_many : ℕ → Bool → Call A

-- The state that a call leaves: one that throws, or goes to wait, changes nothing.
abbrev pub after {ℓ κ} : {A : Type ℓ} {R : Type κ} → Chan A → Outcome A R → Chan A
after c (returns r c' s) = c'
after c throws = c
after c waits = c

module _ {ℓ} {A : Type ℓ} (o : Less A) where
  unfoldable pub step : Call A → Chan A → Chan A
  unfolding insert erase clear get wait_and_take_all barrier cancel cancel_reset
  step (inserts x) c = after c (insert o x c)
  step (erases x) c = after c (erase o x c)
  step clears c = after c (clear c)
  step gets c = after c (get c)
  step takes_all c = after c (wait_and_take_all c)
  step barriers c = after c (barrier c)
  step cancels c = after c (cancel c)
  step resets c = after c (cancel_reset c)
  step (try_gets r) c = after c (try_get r c)
  step (try_gets_many n r) c = after c (try_get_many n r c)

  unfoldable pub run : List (Call A) → Chan A → Chan A
  unfolding step
  run [] c = c
  run (k ∷ ks) c = run ks (step k c)

  -- The item that was taken, and the others: all of them above it, or all below.
  abbrev pub Extreme : Bool → List A → Option A → List A → Type ℓ
  Extreme r xs none rest = (xs ≡ []) × (rest ≡ [])
  Extreme true xs (some x) rest =
      ((a : A) → member o a xs ≡ (same o a x || member o a rest))
      × All (λ b. o.less b x ≡ true) rest
  Extreme false xs (some x) rest =
      ((a : A) → member o a xs ≡ (same o a x || member o a rest)) × Above o x rest

  abbrev pub Gets : Bool → Chan A → Outcome A (Option A) → Type ℓ
  Gets r c out =
      (p : Option A) × (c' : Chan A) × (out ≡ returns p c' quiet)
      × (c'.is_canceled ≡ c.is_canceled)
      × Extreme r c.items p c'.items

  taken-Front :
      (c : Chan A) (p : Option (A × List A))
      → IsSorted o c.items
      → Front c.items p
      → Gets false c (taken c p)
  unfolding member
  taken-Front c none s e = (none, c, refl, refl, (e, e))
  taken-Front c (some (x, rest)) s e = (
    some x,
    record c { items = rest },
    refl,
    refl,
    ((λ a. ground arith), (subst (IsSorted o) e s).0),
  )

  taken-Back :
      (c : Chan A) (p : Option (A × List A))
      → IsSorted o c.items
      → Back c.items p
      → Gets true c (taken c p)
  unfolding member
  taken-Back c none s e = (none, c, refl, refl, (e, e))
  taken-Back c (some (x, rest)) s e = (
    some x,
    record c { items = rest },
    refl,
    refl,
    (
      (λ a. ground (arith, member-append o a rest (x ∷ []))),
      IsSorted-last o rest x (subst (IsSorted o) e s),
    ),
  )

  try_get-Gets : (r : Bool) (c : Chan A) → IsSorted o c.items → Gets r c (try_get r c)
  unfolding try_get
  try_get-Gets true c s = taken-Back c (take_last c.items) s (take_last-Back c.items)
  try_get-Gets false c s = taken-Front c (take_first c.items) s (take_first-Front c.items)

  Front-IsSorted :
      (c : Chan A) (p : Option (A × List A))
      → IsSorted o c.items
      → Front c.items p
      → IsSorted o (after c (taken c p)).items
  Front-IsSorted c none s e = s
  Front-IsSorted c (some (x, rest)) s e = (subst (IsSorted o) e s).1

  Back-IsSorted :
      (c : Chan A) (p : Option (A × List A))
      → IsSorted o c.items
      → Back c.items p
      → IsSorted o (after c (taken c p)).items
  Back-IsSorted c none s e = s
  Back-IsSorted c (some (x, rest)) s e =
      (IsSorted-append o rest (x ∷ []) (subst (IsSorted o) e s)).0

  try_get-IsSorted :
      (r : Bool) (c : Chan A) → IsSorted o c.items → IsSorted o (after c (try_get r c)).items
  unfolding try_get
  try_get-IsSorted true c s = Back-IsSorted c (take_last c.items) s (take_last-Back c.items)
  try_get-IsSorted false c s = Front-IsSorted c (take_first c.items) s (take_first-Front c.items)

  Split-IsSorted :
      (r : Bool) (xs : List A) (p : List A × List A) → IsSorted o xs → Split r xs p → IsSorted o p.1
  Split-IsSorted true xs (vec, rest) s e =
      (IsSorted-append o rest (reverse vec) (subst (IsSorted o) e s)).0
  Split-IsSorted false xs (vec, rest) s e = (IsSorted-append o vec rest (subst (IsSorted o) e s)).1

  try_get_many-IsSorted :
      (n : ℕ) (r : Bool) (c : Chan A)
      → IsSorted o c.items
      → IsSorted o (after c (try_get_many n r c)).items
  unfolding try_get_many
  try_get_many-IsSorted n r c s = elim (Bool-cases (is_nil c.items)) [
    | inl empty ↦ rw (empty, try_get_many) s
    | inr more ↦
        rw (more, try_get_many)
          (Split-IsSorted r c.items (take_many r n' c.items) s (take_many-Split r n' c.items))
  ]
    where
      n' : ℕ
      n' = if ltb (length c.items) n then length c.items else n

  get-IsSorted : (c : Chan A) → IsSorted o c.items → IsSorted o (after c (get c)).items
  unfolding get
  get-IsSorted c s =
      ground (arith, Front-IsSorted c (take_first c.items) s (take_first-Front c.items))

  step-IsSorted : (k : Call A) (c : Chan A) → IsSorted o c.items → IsSorted o (step k c).items
  unfolding step
  step-IsSorted (inserts x) c s = ground (arith, insert-IsSorted o x c.items s)
  step-IsSorted (erases x) c s = erase-IsSorted o x c.items s
  step-IsSorted (try_gets r) c s = try_get-IsSorted r c s
  step-IsSorted (try_gets_many n r) c s = try_get_many-IsSorted n r c s
  step-IsSorted gets c s = get-IsSorted c s
  step-IsSorted _ c s = ground arith

  run-IsSorted :
      (ks : List (Call A)) (c : Chan A) → IsSorted o c.items → IsSorted o (run ks c).items
  unfolding run
  run-IsSorted [] c s = s
  run-IsSorted (k ∷ ks) c s = run-IsSorted ks (step k c) (step-IsSorted k c s)

  abbrev pub reached : List (Call A) → Chan A
  unfolding create
  reached ks = run ks create

  reached-IsSorted : (ks : List (Call A)) → IsSorted o (reached ks).items
  unfolding create
  reached-IsSorted ks = run-IsSorted ks create tt

  -- After any calls on a new set, and whether it is canceled or not, `try_get` takes the least item,
  -- or from the back the greatest, and keeps the others; it fails on an empty set only. `get` throws
  -- on a canceled set, waits on an empty one, and else does what `try_get` does from the front.
  pub takes_lem :
      (ks : List (Call A)) (r : Bool)
      → let c = reached ks in
        Gets r c (try_get r c)
        × (get c
            ≡ (if c.is_canceled then throws else if is_nil c.items then waits else try_get false c))
  unfolding get try_get
  takes_lem ks r = (try_get-Gets r (reached ks) (reached-IsSorted ks), get_is (reached ks))
    where
      get_is :
          (c : Chan A)
          → get c
            ≡ (if c.is_canceled then throws else if is_nil c.items then waits else try_get false c)
      get_is c = ground arith

  -- After any calls on a new set, `insert` throws and changes nothing if the set is canceled, and
  -- else returns whether the item is new; then the set holds the item and all that it held, and no
  -- other.
  pub insert_lem :
      (ks : List (Call A)) (x : A)
      → let c = reached ks in
        (insert o x c ≡ (
          if c.is_canceled
          then throws
          else returns (not (member o x c.items)) (step (inserts x) c) notify_one))
        × ((a : A)
            → member o a (step (inserts x) c).items
              ≡ ((not c.is_canceled && same o a x) || member o a c.items))
  unfolding insert step
  insert_lem ks x =
      let c = reached ks in
      let len = length-insert o x c.items (reached-IsSorted ks) in
      elim (Bool-cases c.is_canceled) [
        | inl shut ↦ rw shut (refl, λ a. refl)
        | inr goes ↦ rw goes (ground (arith, len), λ a. member-insert o a x c.items)
      ]

  -- After any calls on a new set, and whether it is canceled or not, `erase` returns how many items
  -- go; the set holds all that it held but the item, and no other.
  erase_lem :
      (ks : List (Call A)) (x : A)
      → let c = reached ks in
        (erase o x c
          ≡ returns (length c.items - length (step (erases x) c).items) (step (erases x) c) quiet)
        × ((a : A)
            → member o a (step (erases x) c).items ≡ (not (same o a x) && member o a c.items))
  unfolding erase step
  erase_lem ks x =
      let c = reached ks in
      (
        ground (arith, length-erase o x c.items (reached-IsSorted ks)),
        λ a. member-erase o a x c.items (reached-IsSorted ks),
      )
