-- ===== src/Tests/Algorithm.antt =====
-- Ranges of numbers.
use cogutil.Base.{ℕ, ◌-◌, ◌||◌, List, [], ◌∷◌, some, ◌≡◌, refl}
use mathlib.Core.Option
use cogutil.Base.Order.{nat_less}
use cogutil.Sorted.{member}
use cogutil.Algorithm.{
  is_sorted, intersection_erased, erase_set_intersection, erase_set_difference,
  insert_set_complement, set_union,
}
use cogutil.Algorithm.Merges.{lesser, greater, count}
use cogutil.Algorithm.Ranges.{count-ranges}

abbrev left : List ℕ
left = 1 ∷ 3 ∷ 3 ∷ 5 ∷ []

abbrev right : List ℕ
right = 3 ∷ 4 ∷ []

algorithm_program : Unit {0}
unfolding is_sorted erase_set_intersection intersection_erased
algorithm_program = tt

-- One of two equal items is erased.
one_erased : erase_set_intersection nat_less left right ≡ some (1 ∷ 3 ∷ 5 ∷ [])
unfolding algorithm_program
one_erased = refl

count-ranges_example :
    (Option.map (count nat_less 3) (insert_set_complement nat_less left right)
      ≡ some (greater (count nat_less 3 left) (count nat_less 3 right)))
    × (Option.map (count nat_less 3) (erase_set_intersection nat_less left right)
        ≡ some (count nat_less 3 left - count nat_less 3 right))
    × (Option.map (count nat_less 3) (erase_set_difference nat_less left right)
        ≡ some (lesser (count nat_less 3 left) (count nat_less 3 right)))
    × (member nat_less 3 (set_union nat_less left right)
        ≡ (member nat_less 3 left || member nat_less 3 right))
unfolding algorithm_program
count-ranges_example = count-ranges nat_less 3 left right refl refl
