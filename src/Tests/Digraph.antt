-- ===== src/Tests/Digraph.antt =====
-- Small digraphs.
use cogutil.Base.{
  ℕ, ◌<◌, true, false, List, [], ◌∷◌, some, if◌then◌else◌, ltb, ◌==◌, ◌≡◌, refl, arith, ◌⊎◌,
}
use cogutil.Base.Order.{nat_less}
use cogutil.Sorted
use cogutil.Sorted.{member}
use cogutil.Digraph.{
  Digraph, create, inserted, n_edges, empty, incoming, outgoing, accumulate, accumulate2d, insert,
  erase,
}
use cogutil.Digraph.Edges.{
  edge, IsMirrored, create-IsMirrored, inserted-IsMirrored, Edit, edits, present, edits_lem,
}
use cogutil.Digraph.Sort.{Result, randomized_topological_sort, sources, relax, loop}
use cogutil.Digraph.Sort.Counting.{occurrences}
use cogutil.Digraph.Sort.Loop.{Ordered}
use cogutil.Digraph.Sort.Topological.{sort_ends, sort_lem}

digraph_program : Unit {0}
unfolding create insert erase incoming outgoing accumulate accumulate2d n_edges empty sources relax
    loop randomized_topological_sort edits Sorted.insert Sorted.erase member
digraph_program = tt

abbrev no_shuffle : List ℕ → List ℕ
no_shuffle nodes = nodes

-- The edges 0 → 2 and 2 → 1.
abbrev path : Digraph
path = inserted 2 1 (inserted 0 2 (create 3))

path-IsMirrored : IsMirrored path
unfolding create
path-IsMirrored =
    inserted-IsMirrored 2 1 (inserted 0 2 (create 3))
      (inserted-IsMirrored 0 2 (create 3) (create-IsMirrored 3) (omega arith) (omega arith))
      (omega arith) (omega arith)

abbrev path_rank : ℕ → ℕ
path_rank x = if x == 0 then 0 else if x == 2 then 1 else 2

path_ranked : (a b : ℕ) → edge path a b ≡ true → path_rank a < path_rank b
unfolding create member Sorted.insert
path_ranked a b e = ground arith

path_sorted : randomized_topological_sort no_shuffle path ≡ Result.sorted (0 ∷ 2 ∷ 1 ∷ [])
unfolding digraph_program
path_sorted = refl

sort_lem_example :
    (out : List ℕ) × (randomized_topological_sort no_shuffle path ≡ Result.sorted out)
    × ((x : ℕ) → occurrences x out ≡ (if ltb x 3 then 1 else 0))
    × Ordered path [] out
unfolding create
sort_lem_example = sort_lem no_shuffle (λ xs x. refl) path path-IsMirrored path_rank path_ranked

-- The edges 1 → 2 and 2 → 1.
abbrev ring : Digraph
ring = inserted 2 1 (inserted 1 2 (create 3))

ring-IsMirrored : IsMirrored ring
unfolding create
ring-IsMirrored =
    inserted-IsMirrored 2 1 (inserted 1 2 (create 3))
      (inserted-IsMirrored 1 2 (create 3) (create-IsMirrored 3) (omega arith) (omega arith))
      (omega arith) (omega arith)

ring_fails : randomized_topological_sort no_shuffle ring ≡ Result.not_dag
unfolding digraph_program
ring_fails = refl

sort_ends_example :
    (randomized_topological_sort no_shuffle ring ≡ Result.not_dag)
    ⊎ ((out : List ℕ) × (randomized_topological_sort no_shuffle ring ≡ Result.sorted out)
        × Ordered ring [] out)
sort_ends_example = sort_ends no_shuffle (λ xs x. refl) ring ring-IsMirrored

abbrev some_edits : List Edit
some_edits = Edit.inserts 0 2 ∷ Edit.inserts 2 1 ∷ Edit.erases 0 2 ∷ []

edits_lem_example :
    (g : Digraph) × (edits some_edits (create 3) ≡ some g)
    × ((a b : ℕ)
        → (member nat_less a (g.incoming_sets b) ≡ present some_edits a b false)
          × (member nat_less b (g.outgoing_sets a) ≡ present some_edits a b false))
edits_lem_example =
    edits_lem 3 some_edits
      ((omega arith, omega arith), ((omega arith, omega arith), ((omega arith, omega arith), tt)))

-- A loop at the node 0.
abbrev self_loop : Digraph
self_loop = inserted 0 0 (create 1)

self_loop_passes : randomized_topological_sort no_shuffle self_loop ≡ Result.sorted []
unfolding digraph_program
self_loop_passes = refl
