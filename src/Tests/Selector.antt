-- ===== src/Tests/Selector.antt =====
-- A selector of the numbers below 3.
use cogutil.Base.{ℕ, ◌<◌, true, List, [], ◌∷◌, some, length, ◌≡◌, ◌⊎◌, refl, arith, All}
use cogutil.Selector.{Selector, create, call, member}
use cogutil.Selector.Fresh.{Inv, Fresh, call-Fresh}
use cogutil.Selector.Draws.{draw, Unrepeated, draws_lem}

abbrev below_3 : Selector
below_3 = record { u = 3; l = 0; picked = [] }

below_3-Inv : Inv below_3
below_3-Inv = record { fits = omega arith; in_range = omega arith; free = refl; below = tt }

call-Fresh_example : Fresh below_3 (call 2 below_3)
call-Fresh_example = call-Fresh 2 below_3 below_3-Inv (omega arith) (omega arith)

-- The lowest free number is selected when the one that is asked for was selected before.
abbrev asked : List ℕ
asked = 0 ∷ 2 ∷ 0 ∷ 2 ∷ []

three_drawn : draw asked below_3 ≡ 0 ∷ 2 ∷ 1 ∷ []
unfolding draw
three_drawn = refl

draws_lem_example :
    (s : Selector) × (create 3 0 ≡ some s)
    × Unrepeated (draw asked s)
    × All (λ m. m < 3) (draw asked s)
    × ((length (draw asked s) ≡ length asked) ⊎ (member 1 (draw asked s) ≡ true))
draws_lem_example =
    draws_lem 3 asked 1 (omega arith) (omega arith)
      (omega arith, (omega arith, (omega arith, (omega arith, tt)))) (omega arith)
