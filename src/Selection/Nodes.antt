-- ===== src/Selection/Nodes.antt =====
-- What a NodeSelector selects from, after any additions.
use cogutil.Base.{
  ℕ, zero, suc, ◌+◌, ◌≤◌, true, false, Option, none, List, [], ◌∷◌, some, leb, ◌==◌, ◌≡◌, refl, sym,
  ◌∙◌, ap, arith, is_nil, subst,
}
use package.cogutil.Selection.{
  NodeSelector, int_max, read_sum, create, grown, added, add, select, at_index, node_at, node_among,
  sum_of,
}
use package.cogutil.Selection.Vectors.{get_or}
use package.cogutil.Selection.Entries.{
  Addition, of_arity, scores, sum_at, Even, entries-grown, added-Even, entries-added, summed,
  run_added, run_added_lem,
}
use package.cogutil.Selection.Roulette.{Hits, roulette_select_lem}

read_sum-get_or : (o : Option ℕ) → read_sum o ≡ get_or 0 o
read_sum-get_or none = refl
read_sum-get_or (some k) = refl

module _ {ℓ} {N : Type ℓ} where
  unfoldable pub run : List (Addition N) → NodeSelector N → Option (NodeSelector N)
  unfolding add
  run [] s = some s
  run ((n, arity, prob) ∷ l) s = elim (add n arity prob s) [ none ↦ none | some s' ↦ run l s' ]

  -- No sum of `added` is greater than all that is added.
  added_fits :
      (n : N) (a p k : ℕ) (l : List (Addition N)) (s : NodeSelector N)
      → Even s
      → sum_at k s + sum_of (scores (of_arity k ((n, a, p) ∷ l))) ≤ int_max
      → sum_at k (added n a p s) + sum_of (scores (of_arity k l)) ≤ int_max
  added_fits n a p k l s e fits =
      subst (λ q. q ≤ int_max)
        (sym (
          ap (λ q. q + sum_of (scores (of_arity k l))) (entries-added n a p k s e).1
          ∙ summed (a == k) (sum_at k s) n p (of_arity k l)))
        fits

  add-added :
      (n : N) (a p : ℕ) (l : List (Addition N)) (s : NodeSelector N)
      → Even s
      → sum_at a (added n a p s) + sum_of (scores (of_arity a l)) ≤ int_max
      → add n a p s ≡ some (added n a p s)
  unfolding add
  add-added n a p l s e fits =
      let same : (a == a) ≡ true = ground arith in
      let now : sum_at a (added n a p s) ≡ sum_at a s + p =
        rw same at (entries-added n a p a s e).1 in
      let bound : leb (read_sum (at_index a (grown a s).arity_sums) + p) int_max ≡ true = ground (
        arith,
        fits,
        now,
        (entries-grown a a s).1,
        read_sum-get_or (at_index a (grown a s).arity_sums),
      ) in
      rw bound refl

  -- Where no total of an arity is too great, no sum is on the way.
  run-run_added :
      (l : List (Addition N)) (s : NodeSelector N)
      → Even s
      → ((k : ℕ) → sum_at k s + sum_of (scores (of_arity k l)) ≤ int_max)
      → run l s ≡ some (run_added l s)
  unfolding run run_added
  run-run_added [] s e fits = refl
  run-run_added ((n, a, p) ∷ l) s e fits =
      rw (run, add-added n a p l s e (added_fits n a p a l s e (fits a)))
        (run-run_added l (added n a p s) (added-Even n a p s e)
          (λ k. added_fits n a p k l s e (fits k)))

  found_entries :
      (k : ℕ) (ls : List (List (N × ℕ))) (ps : List (N × ℕ))
      → get_or [] (at_index k ls) ≡ ps
      → is_nil ps ≡ false
      → at_index k ls ≡ some ps
  unfolding at_index
  found_entries k [] ps e some_there = cc
  found_entries zero (x ∷ xs) ps e some_there = ap some e
  found_entries (suc k) (x ∷ xs) ps e some_there = found_entries k xs ps e some_there

  is_nil-scores : (ps : List (N × ℕ)) → is_nil (scores ps) ≡ is_nil ps
  is_nil-scores [] = refl
  is_nil-scores (p ∷ ps) = refl

  -- Let any nodes be added to a new NodeSelector, with scores that for no arity add up to more than an
  -- int holds. Then no addition overflows, and the sum for each arity is that of the scores that were
  -- added with it. For an arity with which some node was added and a point up to that sum, select
  -- gives, of the nodes added with that arity in order, the first one at which their scores add up
  -- to the point.
  pub select_lem :
      (l : List (Addition N)) (k point : ℕ)
      → ((i : ℕ) → sum_of (scores (of_arity i l)) ≤ int_max)
      → is_nil (of_arity k l) ≡ false
      → point ≤ sum_of (scores (of_arity k l))
      → (s : NodeSelector N) × (run l create ≡ some s)
        × (sum_at k s ≡ sum_of (scores (of_arity k l)))
        × ((j : ℕ) × (select k point s ≡ node_at (of_arity k l) (some j))
            × Hits point (scores (of_arity k l)) j)
  unfolding select create at_index
  select_lem l k point fits some_there few =
      let s = run_added l create in
      let (there, sums) = run_added_lem l k create refl in
      let found = found_entries k s.by_arity (of_arity k l) there some_there in
      let (j, at, hits) =
        roulette_select_lem point (scores (of_arity k l))
          (is_nil-scores (of_arity k l) ∙ some_there) few in
      (
        s,
        run-run_added l create refl (λ i. omega (arith, fits i)),
        sums ∙ omega arith,
        (j, ap (node_among point) found ∙ ap (node_at (of_arity k l)) at, hits),
      )
