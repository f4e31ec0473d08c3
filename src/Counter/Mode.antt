-- ===== src/Counter/Mode.antt =====
-- `mode` of opencog/util/Counter.h, by the counts of the keys.
use cogutil.Base.{List, [], ◌∷◌, Option, none, some, if◌then◌else◌, ◌≡◌, refl, ap, arith}
use cogutil.Base.Order.{Less}
use cogutil.Counter.{Number, mode, mode_loop}

module _ {ℓ κ} {T : Type ℓ} {C : Type κ} (o : Less T) (n : Number C) where
  -- The last key of a list whose count is above a bound.
  unfoldable pub last_above : C → List (T × C) → Option T
  last_above b [] = none
  last_above b ((k, v) ∷ m) = elim (last_above b m) [
    | none ↦ if n.lt b v then some k else none
    | some j ↦ some j
  ]

  abbrev pub or_key : Option T → T → T
  or_key none k = k
  or_key (some j) k = j

  mode_loop-last_above :
      (key : T) (cnt : C) (m : List (T × C))
      → mode_loop o n key cnt m ≡ or_key (last_above cnt m) key
  unfolding mode_loop last_above
  mode_loop-last_above key cnt [] = refl
  mode_loop-last_above key cnt ((k, v) ∷ m) =
      ground (arith, mode_loop-last_above (if n.lt cnt v then k else key) cnt m)

  -- `mode` returns the last key whose count is above that of the first key, and the first key if
  -- there is none, for any counter that is not empty.
  mode_lem :
      (k : T) (v : C) (m : List (T × C))
      → mode o n ((k, v) ∷ m) ≡ some (or_key (last_above v ((k, v) ∷ m)) k)
  unfolding mode
  mode_lem k v m = ap some (mode_loop-last_above k v ((k, v) ∷ m))
