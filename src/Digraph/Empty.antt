-- ===== src/Digraph/Empty.antt =====
-- What `n_edges` and `empty` of a digraph tell.
use cogutil.Base.{ℕ, true, List, [], ◌∷◌, ◌≡◌, refl, ap, ◌∙◌, All}
use cogutil.Digraph.{Digraph, accumulate, accumulate2d, n_edges, empty, count_from}
use cogutil.Digraph.Edges.{edge}
use cogutil.Digraph.Sort.Counting.{member-All}

accumulate_zeros : (xs : List ℕ) → All (λ x. x ≡ 0) xs → accumulate xs 0 ≡ 0
unfolding accumulate
accumulate_zeros [] z = refl
accumulate_zeros (x ∷ xs) z = rw z.0 (accumulate_zeros xs z.1)

accumulate2d_zeros :
    (sets : ℕ → List ℕ) (is : List ℕ)
    → ((i : ℕ) → All (λ x. x ≡ 0) (sets i))
    → accumulate2d sets is 0 ≡ 0
unfolding accumulate2d
accumulate2d_zeros sets [] z = refl
accumulate2d_zeros sets (i ∷ is) z =
    ap (accumulate2d sets is) (accumulate_zeros (sets i) (z i)) ∙ accumulate2d_zeros sets is z

-- `n_edges` adds the numbers of the nodes instead of counting them: a digraph whose edges all begin
-- at the node 0, loops included, counts as one without edges.
empty_lem :
    (g : Digraph) → ((a b : ℕ) → edge g a b ≡ true → a ≡ 0) → (n_edges g ≡ 0) × (empty g ≡ true)
unfolding n_edges empty
empty_lem g zero_only =
    let none_left =
      accumulate2d_zeros g.incoming_sets (count_from g.size 0)
        (λ i. member-All (g.incoming_sets i) (λ a e. zero_only a i e)) in
    (none_left, rw none_left refl)
