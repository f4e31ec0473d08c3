-- ===== src/Selection.antt =====
-- opencog/util/selection.h: roulette_select over scores that are natural numbers, and NodeSelector.
-- A random number is an argument: `point` is `ScoreT(double(sum) * rng.randdouble())`. `none` is an
-- access past the end of a range.
pub mod Roulette
pub mod Vectors
pub mod Entries
pub mod Nodes
pub mod Tournament
use cogutil.Base.{
  ℕ, zero, suc, ◌+◌, ◌-◌, Bool, List, [], ◌∷◌, ◌++◌, Option, none, some, if◌then◌else◌, ltb, leb,
  length, map, drop,
}

-- The loop from the index `i` on: a difference below 0 ends it as 0 does.
unfoldable pub spin : ℕ → ℕ → List ℕ → Option ℕ
spin sum i [] = none
spin sum i (x ∷ []) = some i
spin sum i (x ∷ y ∷ xs) =
    let rest = spin (sum - x) (suc i) (y ∷ xs) in if ltb 0 (sum - x) then rest else some i

unfoldable pub roulette_select : ℕ → List ℕ → Option ℕ
unfolding spin
roulette_select point scores = spin point 0 scores

-- `accumulate`.
abbrev pub sum_of : List ℕ → ℕ
sum_of [] = 0
sum_of (x ∷ xs) = x + sum_of xs

module _ {ℓ} {A : Type ℓ} where
  -- An element of a vector.
  unfoldable pub at_index : ℕ → List A → Option A
  at_index i [] = none
  at_index zero (x ∷ xs) = some x
  at_index (suc i) (x ∷ xs) = at_index i xs

  -- `resize` to a greater size.
  unfoldable pub resized : ℕ → A → List A → List A
  resized zero a xs = xs
  resized (suc n) a [] = a ∷ resized n a []
  resized (suc n) a (x ∷ xs) = x ∷ resized n a xs

  -- A change of one element.
  unfoldable pub changed : ℕ → (A → A) → List A → List A
  changed i g [] = []
  changed zero g (x ∷ xs) = g x ∷ xs
  changed (suc i) g (x ∷ xs) = x ∷ changed i g xs

-- The distance from the beginning.
abbrev pub beyond : ℕ → Option ℕ → Option ℕ
beyond k none = none
beyond k (some i) = some (k + i)

abbrev pub int_max : ℕ
int_max = 2147483647

-- The sum of an arity; `grown` leaves one.
abbrev pub read_sum : Option ℕ → ℕ
read_sum none = 0
read_sum (some k) = k

-- The arities and the scores are taken not to be negative.
pub record NodeSelector {ℓ} (N : Type ℓ) : Type ℓ where
  pub by_arity : List (List (N × ℕ))
  pub arity_sums : List ℕ

module _ {ℓ} {N : Type ℓ} where
  unfoldable pub create : NodeSelector N
  create = record { by_arity = []; arity_sums = [] }

  abbrev pub grown : ℕ → NodeSelector N → NodeSelector N
  grown arity s =
      if leb (length s.by_arity) arity
      then record {
        by_arity = resized (suc arity) [] s.by_arity;
        arity_sums = resized (suc arity) 0 s.arity_sums;
      }
      else s

  unfoldable pub added : N → ℕ → ℕ → NodeSelector N → NodeSelector N
  unfolding changed resized
  added n arity prob s =
      let g = grown arity s in
      record {
        by_arity = changed arity (λ ps. ps ++ (n, prob) ∷ []) g.by_arity;
        arity_sums = changed arity (λ k. k + prob) g.arity_sums;
      }

  -- `none` is a sum that an `int` does not hold.
  unfoldable pub add : N → ℕ → ℕ → NodeSelector N → Option (NodeSelector N)
  unfolding added at_index
  add n arity prob s =
      if leb (read_sum (at_index arity (grown arity s).arity_sums) + prob) int_max
      then some (added n arity prob s)
      else none

  abbrev pub node_at : List (N × ℕ) → Option ℕ → Option N
  node_at ps none = none
  node_at ps (some i) = elim (at_index i ps) [ none ↦ none | some p ↦ some p.0 ]

  abbrev pub node_among : ℕ → Option (List (N × ℕ)) → Option N
  node_among point none = none
  node_among point (some ps) = node_at ps (roulette_select point (map (λ p. p.1) ps))

  unfoldable pub select : ℕ → ℕ → NodeSelector N → Option N
  unfolding roulette_select at_index
  select arity point s = node_among point (at_index arity s.by_arity)

  unfoldable pub select_arity : ℕ → ℕ → NodeSelector N → Option ℕ
  unfolding roulette_select
  select_arity k point s = beyond k (roulette_select point (drop k s.arity_sums))
