-- ===== src/Digraph/Sort/Topological.antt =====
-- What randomized_topological_sort gives on a graph without cycles.
use cogutil.Base.{
  ℕ, zero, suc, ◌<◌, true, List, [], ◌∷◌, some, if◌then◌else◌, ltb, ◌≡◌, refl, ◌∙◌, ap, arith,
  is_nil, All, lt→ltb, ltb→lt, Bool-cases, inl, inr, ◌⊎◌, List-cases,
}
use cogutil.Base.Order.{nat_less}
use cogutil.Sorted.{member}
use cogutil.Sorted.Laws.{same_refl}
use cogutil.Digraph.{Digraph, incoming, accumulate, accumulate2d, n_edges, empty, count_from}
use cogutil.Digraph.Edges.{edge, IsMirrored}
use cogutil.Digraph.Sort.{sources, started, asserted, Result, randomized_topological_sort}
use cogutil.Digraph.Sort.Counting.{occurrences, occurrences-count_from, occurrences-All}
use cogutil.Digraph.Sort.Relax.{is_source}
use cogutil.Digraph.Sort.Loop.{Ordered, Inv, loop_lem}

sources_next :
    (g : Digraph) (node : ℕ) (nodes q : List ℕ)
    → node < g.size
    → sources g nodes ≡ some q
    → sources g (node ∷ nodes) ≡ some (if is_source g node then node ∷ q else q)
unfolding sources incoming
sources_next g node nodes q p h = rw (sources, lt→ltb node g.size p, h) refl

sources_lem :
    (g : Digraph) (nodes : List ℕ)
    → All (λ d. d < g.size) nodes
    → (q : List ℕ) × (sources g nodes ≡ some q)
      × ((x : ℕ) → occurrences x q ≡ (if is_source g x then occurrences x nodes else 0))
unfolding sources
sources_lem g [] r = ([], refl, λ x. ground arith)
sources_lem g (node ∷ nodes) r =
    let (q, ran, counts) = sources_lem g nodes r.1 in
    (
      if is_source g node then node ∷ q else q,
      sources_next g node nodes q r.0 ran,
      λ x. elim (Bool-cases (is_source g node)) [
        | inl source ↦ rw source (ground (arith, counts x, source))
        | inr other ↦ rw other (ground (arith, counts x, other))
      ],
    )

-- The sum over empty sets.
accumulate_empty : (xs : List ℕ) (init : ℕ) → is_nil xs ≡ true → accumulate xs init ≡ init
unfolding accumulate
accumulate_empty [] init h = refl
accumulate_empty (x ∷ xs) init h = absurd (ground arith)

accumulate2d_empty :
    (sets : ℕ → List ℕ) (is : List ℕ) (init : ℕ)
    → All (λ i. is_nil (sets i) ≡ true) is
    → accumulate2d sets is init ≡ init
unfolding accumulate2d
accumulate2d_empty sets [] init h = refl
accumulate2d_empty sets (i ∷ is) init h =
    ap (λ k. accumulate2d sets is k) (accumulate_empty (sets i) init h.0)
    ∙ accumulate2d_empty sets is init h.1

first_member : (a : ℕ) (xs ys : List ℕ) → ys ≡ a ∷ xs → member nat_less a ys ≡ true
unfolding member
first_member a xs ys e = rw e (ground (arith, same_refl nat_less a))

module _ (g0 g : Digraph) (out : List ℕ) (v : IsMirrored g0) (i : Inv g0 g [] out) where
  module _ (rank : ℕ → ℕ) (ranked : (a b : ℕ) → edge g0 a b ≡ true → rank a < rank b) where
    -- Without cycles no edge is left: the one with the least beginning would begin at a source.
    all_sources : (k x : ℕ) → rank x < k → x < g0.size → is_source g x ≡ true
    all_sources zero x below p = absurd (omega (arith, below))
    all_sources (suc k) x below p = elim (List-cases (g.incoming_sets x)) [
      | inl no_edge ↦ rw no_edge refl
      | inr (a, xs, e) ↦
          let there : edge g a x ≡ true = first_member a xs (g.incoming_sets x) e in
          let there0 : edge g0 a x ≡ true = ground (arith, i.edges a x, there) in
          let inside = (v.ranges a x there0).0 in
          let source = all_sources k a (omega (arith, below, ranked a x there0)) inside in
          absurd (ground (arith, i.edges a x, there, i.once a, source, inside))
    ]

    empty_lem : empty g ≡ true
    unfolding empty n_edges
    empty_lem =
        rw
          (accumulate2d_empty g.incoming_sets (count_from g.size 0) 0 (
            occurrences-All (count_from g.size 0) (λ x p.
              all_sources (suc (rank x)) x (omega arith)
                (ground (arith, occurrences-count_from x g.size 0, i.size_same, p)))))
          refl

    occurrences-out : (x : ℕ) → occurrences x out ≡ (if ltb x g0.size then 1 else 0)
    occurrences-out x = elim (Bool-cases (ltb x g0.size)) [
      | inl inside ↦
          let source = all_sources (suc (rank x)) x (omega arith) (ltb→lt x g0.size inside) in
          ground (arith, i.once x, source, inside)
      | inr outside ↦ ground (arith, i.once x, outside)
    ]

module _ (shuffle : List ℕ → List ℕ)
    (permutes : (xs : List ℕ) (x : ℕ) → occurrences x (shuffle xs) ≡ occurrences x xs) (g : Digraph)
    (v : IsMirrored g) where
  -- The graph and the output at the end of the loop.
  abbrev Ended : Type 0
  Ended =
      (g' : Digraph) × (out : List ℕ) × (randomized_topological_sort shuffle g
        ≡ asserted (some (g', out)))
      × Inv g g' [] out

  nodes_count :
      (x : ℕ) → occurrences x (shuffle (count_from g.size 0)) ≡ (if ltb x g.size then 1 else 0)
  nodes_count x =
      ground (arith, permutes (count_from g.size 0) x, occurrences-count_from x g.size 0)

  nodes_within : All (λ d. d < g.size) (shuffle (count_from g.size 0))
  nodes_within =
      occurrences-All (shuffle (count_from g.size 0)) (λ x p. ground (arith, nodes_count x, p))

  start-Inv :
      (q : List ℕ)
      → ((x : ℕ)
          → occurrences x q
            ≡ (if is_source g x then occurrences x (shuffle (count_from g.size 0)) else 0))
      → Inv g g q []
  start-Inv q counts = record {
    mirrored = v;
    size_same = refl;
    edges = λ a b. ground arith;
    once = λ x. ground (arith, counts x, nodes_count x);
    ordered = tt;
  }

  sort_ended : Ended
  unfolding randomized_topological_sort
  sort_ended =
      let (q, begun, counts) = sources_lem g (shuffle (count_from g.size 0)) nodes_within in
      let (g', out, ran, i) = loop_lem (suc g.size) g g q [] (start-Inv q counts) (omega arith) in
      (g', out, ap (started g) begun ∙ ap asserted ran, i)

  asserted-Ends :
      (g' : Digraph) (out : List ℕ)
      → Ordered g [] out
      → let r = asserted (some (g', out)) in
        (r ≡ Result.not_dag) ⊎ ((o : List ℕ) × (r ≡ Result.sorted o) × Ordered g [] o)
  asserted-Ends g' out o = elim (Bool-cases (empty g')) [
    | inl none_left ↦ inr (out, rw none_left refl, o)
    | inr some_left ↦ inl (rw some_left refl)
  ]

  -- On any digraph whose two vectors tell the same edges, between its nodes, and with any shuffle,
  -- the sort ends within its fuel and follows no index past the end of a vector: it fails the
  -- assertion, or gives a list in which every node comes after all nodes with an edge to it.
  pub sort_ends :
      (randomized_topological_sort shuffle g ≡ Result.not_dag)
      ⊎ ((out : List ℕ) × (randomized_topological_sort shuffle g ≡ Result.sorted out)
          × Ordered g [] out)
  sort_ends =
      let (g', out, ran, i) = sort_ended in
      elim (asserted-Ends g' out i.ordered) [
        | inl failed ↦ inl (ran ∙ failed)
        | inr (o, gave, ordered) ↦ inr (o, ran ∙ gave, ordered)
      ]

  -- If each edge goes from a lower to a higher rank, that is, if there is no cycle, the sort passes
  -- the assertion and gives each node once, after all nodes with an edge to it.
  pub sort_lem :
      (rank : ℕ → ℕ)
      → ((a b : ℕ) → edge g a b ≡ true → rank a < rank b)
      → (out : List ℕ) × (randomized_topological_sort shuffle g ≡ Result.sorted out)
        × ((x : ℕ) → occurrences x out ≡ (if ltb x g.size then 1 else 0))
        × Ordered g [] out
  sort_lem rank ranked =
      let (g', out, ran, i) = sort_ended in
      (
        out,
        ran ∙ rw (empty_lem g g' out v i rank ranked) refl,
        occurrences-out g g' out v i rank ranked,
        i.ordered,
      )
