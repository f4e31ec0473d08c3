-- ===== src/Counter.antt =====
-- opencog/util/Counter.h: a `std::map` from keys to counts, kept as a list in the order of the
-- keys. The type of the counts is a parameter, with the operations that the code calls.
pub mod Lookup
pub mod Product
pub mod Mode
use cogutil.Base.{Bool, true, false, List, [], ◌∷◌, Option, none, some, if◌then◌else◌}
use cogutil.Base.Order.{Less}
use cogutil.Sorted

-- `CT`: `zero` is `CT()`, and `lt` is `<`.
pub record Number {ℓ} (C : Type ℓ) : Type ℓ where
  pub zero : C
  pub one : C
  pub plus : C → C → C
  pub minus : C → C → C
  pub times : C → C → C
  pub over : C → C → C
  pub lt : C → C → Bool

abbrev pub or_else {κ} : {C : Type κ} → Option C → C → C
or_else none c = c
or_else (some v) c = v

module _ {ℓ κ} {T : Type ℓ} {C : Type κ} (o : Less T) (n : Number C) where
  -- `find`: the count of a key that is there.
  unfoldable pub find : T → List (T × C) → Option C
  find k [] = none
  find k ((j, v) ∷ m) = if o.less k j then none else if o.less j k then find k m else some v

  -- `this->operator[](k)`, which puts `CT()` under a key that is not there, and an assignment to it.
  unfoldable pub update : T → (C → C) → List (T × C) → List (T × C)
  update k f [] = (k, f n.zero) ∷ []
  update k f ((j, v) ∷ m) =
      let rest = (j, v) ∷ update k f m in
      if o.less k j then (k, f n.zero) ∷ (j, v) ∷ m else if o.less j k then rest else (j, f v) ∷ m

  unfoldable pub init : List T → List (T × C) → List (T × C)
  unfolding update
  init [] m = m
  init (x ∷ xs) m = init xs (update x (λ c. n.plus c n.one) m)

  -- The constructor from an initializer list.
  unfoldable pub init_pairs : List (T × C) → List (T × C) → List (T × C)
  unfolding update
  init_pairs [] m = m
  init_pairs ((k, v) ∷ ps) m = init_pairs ps (update k (λ c. v) m)

  unfoldable pub get : T → C → List (T × C) → C
  unfolding find
  get k c m = or_else (find k m) c

  unfoldable pub total_from : C → List (T × C) → C
  total_from c [] = c
  total_from c ((k, v) ∷ m) = total_from (n.plus c v) m

  unfoldable pub total_count : List (T × C) → C
  unfolding total_from
  total_count m = total_from n.zero m

  -- The loop of `mode`; `cnt` is the count of the first key all along.
  unfoldable pub mode_loop : T → C → List (T × C) → T
  mode_loop key cnt [] = key
  mode_loop key cnt ((k, v) ∷ m) = mode_loop (if n.lt cnt v then k else key) cnt m

  -- `none`: `begin()` of an empty map is followed.
  unfoldable pub mode : List (T × C) → Option T
  unfolding mode_loop
  mode [] = none
  mode ((k, v) ∷ m) = some (mode_loop k v ((k, v) ∷ m))

  -- `+=`, `-=` and `/=` by another counter.
  unfoldable pub each : (C → C → C) → List (T × C) → List (T × C) → List (T × C)
  unfolding update
  each op m [] = m
  each op m ((k, v) ∷ other) = each op (update k (λ c. op c v) m) other

  abbrev pub add_all : List (T × C) → List (T × C) → List (T × C)
  add_all = each n.plus

  abbrev pub subtract_all : List (T × C) → List (T × C) → List (T × C)
  subtract_all = each n.minus

  abbrev pub divide_all : List (T × C) → List (T × C) → List (T × C)
  divide_all = each n.over

  -- What is left of one side when the other is done: the keys, with `CT()`.
  unfoldable pub zeroed : List (T × C) → List (T × C)
  zeroed [] = []
  zeroed ((k, v) ∷ m) = (k, n.zero) ∷ zeroed m

  -- `*=` by another counter: two iterators, in the order of the keys.
  unfoldable pub multiply : List (T × C) → List (T × C) → List (T × C)
  unfolding zeroed
  multiply [] other = zeroed other
  multiply ((k, v) ∷ m) [] = zeroed ((k, v) ∷ m)
  multiply ((k, v) ∷ m) ((j, w) ∷ other) = elim (o.less k j) [
    | true ↦ (k, n.zero) ∷ multiply m ((j, w) ∷ other)
    | false ↦ elim (o.less j k) [
      | true ↦ (j, n.zero) ∷ multiply ((k, v) ∷ m) other
      | false ↦ (k, n.times v w) ∷ multiply m other
    ]
  ]

  -- `+=`, `-=`, `*=` and `/=` by a number.
  unfoldable pub scale : (C → C → C) → C → List (T × C) → List (T × C)
  scale op num [] = []
  scale op num ((k, v) ∷ m) = (k, op v num) ∷ scale op num m

  -- Each key is put into a set.
  unfoldable pub keys : List (T × C) → List T → List T
  keys [] ks = ks
  keys ((k, v) ∷ m) ks = keys m (Sorted.insert o k ks)
