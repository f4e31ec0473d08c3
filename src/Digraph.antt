-- ===== src/Digraph.antt =====
-- opencog/util/digraph.h: the class digraph. A vector of sets is a function on the indices below its
-- size; an index past the end, which C++ leaves undefined, is `none`.
pub mod Sort
pub mod Edges
pub mod Empty
use cogutil.Base.{
  ℕ, zero, suc, ◌+◌, ◌%◌, Bool, List, [], ◌∷◌, Option, none, some, if◌then◌else◌, ltb, ◌==◌, ◌&&◌,
}
use cogutil.Base.Order.{nat_less}
use cogutil.Sorted

pub record Digraph : Type 0 where
  pub size : ℕ
  pub incoming_sets : ℕ → List ℕ
  pub outgoing_sets : ℕ → List ℕ

-- The constructor.
unfoldable pub create : ℕ → Digraph
create n = record { size = n; incoming_sets = λ x. []; outgoing_sets = λ x. [] }

-- `sets[i] = xs`.
abbrev pub update : ℕ → List ℕ → (ℕ → List ℕ) → ℕ → List ℕ
update i xs sets x = if x == i then xs else sets x

-- An access to a vector.
abbrev pub within {ℓ} : {A : Type ℓ} → ℕ → Digraph → A → Option A
within x g a = if ltb x g.size then some a else none

abbrev pub inserted : ℕ → ℕ → Digraph → Digraph
inserted src dst g = record {
  size = g.size;
  incoming_sets = update dst (Sorted.insert nat_less src (g.incoming_sets dst)) g.incoming_sets;
  outgoing_sets = update src (Sorted.insert nat_less dst (g.outgoing_sets src)) g.outgoing_sets;
}

abbrev pub erased : ℕ → ℕ → Digraph → Digraph
erased src dst g = record {
  size = g.size;
  incoming_sets = update dst (Sorted.erase nat_less src (g.incoming_sets dst)) g.incoming_sets;
  outgoing_sets = update src (Sorted.erase nat_less dst (g.outgoing_sets src)) g.outgoing_sets;
}

unfoldable pub insert : ℕ → ℕ → Digraph → Option Digraph
insert src dst g = if ltb dst g.size && ltb src g.size then some (inserted src dst g) else none

unfoldable pub erase : ℕ → ℕ → Digraph → Option Digraph
erase src dst g = if ltb dst g.size && ltb src g.size then some (erased src dst g) else none

abbrev pub n_nodes : Digraph → ℕ
n_nodes g = g.size

abbrev pub count_from : ℕ → ℕ → List ℕ
count_from zero i = []
count_from (suc k) i = i ∷ count_from k (i + 1)

-- `std::accumulate` over a set, in unsigned numbers of 32 bits.
unfoldable pub accumulate : List ℕ → ℕ → ℕ
accumulate [] init = init
accumulate (x ∷ xs) init = accumulate xs ((init + x) % 4294967296)

-- The loop of `accumulate2d` over the sets at the indices.
unfoldable pub accumulate2d : (ℕ → List ℕ) → List ℕ → ℕ → ℕ
unfolding accumulate
accumulate2d sets [] init = init
accumulate2d sets (i ∷ is) init = accumulate2d sets is (accumulate (sets i) init)

unfoldable pub n_edges : Digraph → ℕ
unfolding accumulate2d
n_edges g = accumulate2d g.incoming_sets (count_from g.size 0) 0

unfoldable pub empty : Digraph → Bool
unfolding n_edges
empty g = n_edges g == 0

unfoldable pub incoming : ℕ → Digraph → Option (List ℕ)
incoming x g = within x g (g.incoming_sets x)

unfoldable pub outgoing : ℕ → Digraph → Option (List ℕ)
outgoing x g = within x g (g.outgoing_sets x)
