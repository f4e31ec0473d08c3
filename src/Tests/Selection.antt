-- ===== src/Tests/Selection.antt =====
-- Nodes with scores, and a wheel.
use cogutil.Base.{ℕ, ◌≤◌, List, [], ◌∷◌, none, some, ◌≡◌, refl, arith, length}
use mathlib.Core.Option
use cogutil.Selection
use cogutil.Selection.Roulette.{Hits}
use cogutil.Selection.Entries.{Addition, of_arity, scores, sum_at}
use cogutil.Selection.Nodes.{run, select_lem}
use cogutil.Selection.Nodes
use cogutil.Selection.Tournament
use cogutil.Base.Order.{nat_less}

selection_program : Unit {0}
unfolding Selection.spin Selection.roulette_select Selection.at_index Selection.resized
    Selection.changed Selection.create Selection.added Selection.add Selection.select
    Selection.select_arity Nodes.run
selection_program = tt

-- Of arity 2: the node 5 with the score 0, and the node 6 with the score 1.
abbrev additions : List (Addition ℕ)
additions = (5, 2, 0) ∷ (7, 1, 4) ∷ (6, 2, 1) ∷ []

additions_fit : (i : ℕ) → Selection.sum_of (scores (of_arity i additions)) ≤ Selection.int_max
additions_fit i = ground arith

select_lem_example :
    (s : Selection.NodeSelector ℕ) × (run additions Selection.create ≡ some s)
    × (sum_at 2 s ≡ Selection.sum_of (scores (of_arity 2 additions)))
    × ((j : ℕ) × (Selection.select 2 0 s ≡ Selection.node_at (of_arity 2 additions) (some j))
        × Hits 0 (scores (of_arity 2 additions)) j)
unfolding selection_program
select_lem_example = select_lem additions 2 0 additions_fit refl (omega arith)

-- The sum of the scores of arity 2 is 1, so the point is 0, and the node with the score 0 comes out.
zero_selected : Option.map (Selection.select 2 0) (run additions Selection.create) ≡ some (some 5)
unfolding selection_program
zero_selected = refl

overflows : run {N = ℕ} ((5, 2, Selection.int_max) ∷ (6, 2, 1) ∷ []) Selection.create ≡ none
unfolding selection_program
overflows = refl

arity_selected :
    Option.map (Selection.select_arity 1 2) (run additions Selection.create) ≡ some (some 1)
unfolding selection_program
arity_selected = refl

-- Two tournaments of two numbers each.
tournaments_lem_example :
    (ws : List ℕ) × (Tournament.tournaments nat_less 2 1 (3 ∷ 8 ∷ 5 ∷ 4 ∷ []) ≡ some ws)
    × (length ws ≡ 2)
    × Tournament.AreWinners nat_less 2 ws (3 ∷ 8 ∷ 5 ∷ 4 ∷ [])
tournaments_lem_example = Tournament.tournaments_lem nat_less 2 1 (3 ∷ 8 ∷ 5 ∷ 4 ∷ []) (omega arith)

winners : Tournament.tournaments nat_less 2 1 (3 ∷ 8 ∷ 5 ∷ 4 ∷ []) ≡ some (8 ∷ 5 ∷ [])
unfolding Tournament.tournaments Tournament.tournament Tournament.contest
winners = refl
