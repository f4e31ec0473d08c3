-- ===== src/Selection/Roulette.antt =====
-- Which index roulette_select gives.
use cogutil.Base.{
  ℕ, suc, ◌+◌, ◌-◌, ◌<◌, ◌≤◌, false, List, [], ◌∷◌, some, ltb, length, take, ◌≡◌, ◌⊎◌, inl, inr,
  refl, arith, Bool-cases, ltb→lt, is_nil, ◌∙◌, ap,
}
use package.cogutil.Selection.{spin, roulette_select, sum_of}

-- The first index at which the scores add up to the point, or the first of all.
abbrev pub Hits : ℕ → List ℕ → ℕ → Type 0
Hits point xs j =
    (j < length xs) × (point ≤ sum_of (take (suc j) xs)) × ((j ≡ 0) ⊎ (sum_of (take j xs) < point))

past_later :
    (j x y sum : ℕ) (xs : List ℕ)
    → x < sum
    → (j ≡ 0) ⊎ (sum_of (take j (y ∷ xs)) < sum - x)
    → x + sum_of (take j (y ∷ xs)) < sum
past_later j x y sum xs more (inl z) = rw z (omega (arith, more))
past_later j x y sum xs more (inr h) = omega (arith, h)

spin_lem :
    (xs : List ℕ) (x i sum : ℕ)
    → sum ≤ sum_of (x ∷ xs)
    → (j : ℕ) × (spin sum i (x ∷ xs) ≡ some (i + j)) × Hits sum (x ∷ xs) j
unfolding spin
spin_lem [] x i sum h = (0, ap some (omega arith), (omega arith, omega (arith, h), inl refl))
spin_lem (y ∷ xs) x i sum h = elim (Bool-cases (ltb 0 (sum - x))) [
  | inl more ↦
      let (j, at, (below, reach, past)) = spin_lem xs y (suc i) (sum - x) (omega (arith, h)) in
      (
        suc j,
        rw more (at ∙ ap some (omega arith)),
        (
          omega (arith, below),
          omega (arith, reach),
          inr (past_later j x y sum xs (omega (arith, ltb→lt 0 (sum - x) more)) past),
        ),
      )
  | inr enough ↦ (0, rw enough (ap some (omega arith)), (omega arith, ground arith, inl refl))
]

-- For scores that are not all missing and a point up to their sum, roulette_select gives the first
-- index at which the scores so far add up to the point. So a point of 0 gives the first index,
-- also where its score is 0.
pub roulette_select_lem :
    (point : ℕ) (scores : List ℕ)
    → is_nil scores ≡ false
    → point ≤ sum_of scores
    → (j : ℕ) × (roulette_select point scores ≡ some j) × Hits point scores j
unfolding roulette_select
roulette_select_lem point [] some_there h = cc
roulette_select_lem point (x ∷ xs) some_there h =
    let (j, at, hits) = spin_lem xs x 0 point h in (j, at ∙ ap some (omega arith), hits)
