-- ===== src/Digraph/Sort.antt =====
-- opencog/util/digraph.h: `randomized_topological_sort`. The shuffle is an argument.
pub mod Counting
pub mod Relax
pub mod Loop
pub mod Topological
use cogutil.Base.{
  ℕ, zero, suc, ◌+◌, Bool, true, false, List, [], ◌∷◌, ◌++◌, Option, none, some, if◌then◌else◌,
  is_nil,
}
use cogutil.Digraph.{Digraph, erase, empty, incoming, outgoing, count_from}

-- `fault` is an access past the end of a vector, or a loop that is longer than its fuel.
pub data Result : Type 0 where
  sorted : List ℕ → Result
  not_dag fault : Result

-- The loop over the nodes that fills the queue.
unfoldable pub sources : Digraph → List ℕ → Option (List ℕ)
unfolding incoming
sources g [] = some []
sources g (node ∷ nodes) =
    let rest = sources g nodes in
    elim (incoming node g) [
      | none ↦ none
      | some set ↦ elim rest [ none ↦ none | some q ↦ some (if is_nil set then node ∷ q else q) ]
    ]

-- The test behind `g.erase(src, dst)`.
abbrev pub pushed : ℕ → List ℕ → List ℕ → List ℕ
pushed dst q set = if is_nil set then q ++ dst ∷ [] else q

-- The loop over the successors of a node, which it takes out of the graph.
unfoldable pub relax : ℕ → List ℕ → Digraph → List ℕ → Option (Digraph × List ℕ)
unfolding erase incoming
relax src [] g q = some (g, q)
relax src (dst ∷ dsts) g q = elim (erase src dst g) [
  | none ↦ none
  | some g' ↦ elim (incoming dst g') [
    | none ↦ none
    | some set ↦ relax src dsts g' (pushed dst q set)
  ]
]

-- The loop over the queue.
unfoldable pub loop : ℕ → List ℕ → Digraph → List ℕ → Option (Digraph × List ℕ)
unfolding outgoing relax
loop zero q g out = none
loop (suc fuel) [] g out = some (g, out)
loop (suc fuel) (src ∷ q) g out = elim (outgoing src g) [
  | none ↦ none
  | some dsts ↦ elim (relax src dsts g q) [
    | none ↦ none
    | some (g', q') ↦ loop fuel q' g' (out ++ src ∷ [])
  ]
]

-- The assertion at the end.
abbrev pub asserted : Option (Digraph × List ℕ) → Result
asserted none = Result.fault
asserted (some (g, out)) = if empty g then Result.sorted out else Result.not_dag

abbrev pub started : Digraph → Option (List ℕ) → Result
started g none = Result.fault
started g (some q) = asserted (loop (suc g.size) q g [])

-- A node is in the queue once at most, so the loop has one round for each node, and ends.
unfoldable pub randomized_topological_sort : (List ℕ → List ℕ) → Digraph → Result
unfolding sources loop empty
randomized_topological_sort shuffle g = started g (sources g (shuffle (count_from g.size 0)))
