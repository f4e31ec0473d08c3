-- ===== src/Algorithm/Ranges.antt =====
-- The functions of opencog/util/algorithm.h on two sorted ranges.
use cogutil.Base.{
  ◌-◌, true, ◌||◌, ◌&&◌, List, [], ◌∷◌, some, ◌≡◌, refl, arith, Bool-cases, inl, inr, sym, ap,
  is_nil,
}
use mathlib.Core.Option
use cogutil.Base.Order.{Less}
use cogutil.Sorted.{IsSorted, member, insert}
use cogutil.Sorted.Laws.{asym, member-insert}
use cogutil.Algorithm.{
  is_sorted, erase_set_intersection, erase_set_difference, insert_set_complement, no_common,
  has_empty_intersection, last_from, disjoint_loop, is_disjoint, difference_erased, set_union,
  set_union_modify,
}
use cogutil.Algorithm.Merges.{
  is_sorted_lem, lesser, greater, count, count-intersection_erased, count-difference_erased,
  count-complement_inserted,
}

module _ {ℓ} {A : Type ℓ} (o : Less A) where
  open o use {less, irrefl, trans, total}

  no_common-difference_erased :
      (xs ys : List A) → no_common o xs ys ≡ is_nil (difference_erased o xs ys)
  unfolding no_common difference_erased
  no_common-difference_erased [] ys = refl
  no_common-difference_erased (x ∷ xs) [] = refl
  no_common-difference_erased (x ∷ xs) (y ∷ ys) = elim (Bool-cases (less x y)) [
    | inl below ↦ rw (no_common, difference_erased, below) (no_common-difference_erased xs (y ∷ ys))
    | inr level ↦ elim (Bool-cases (less y x)) [
      | inl above ↦
          rw (no_common, difference_erased, level, above) (no_common-difference_erased (x ∷ xs) ys)
      | inr equal ↦ rw (no_common, difference_erased, level, equal) refl
    ]
  ]

  -- `has_empty_intersection` fails where `erase_set_difference` fails, and otherwise is true exactly
  -- when `erase_set_difference` would leave nothing.
  has_empty_intersection_lem :
      (xs ys : List A)
      → has_empty_intersection o xs ys ≡ Option.map is_nil (erase_set_difference o xs ys)
  unfolding has_empty_intersection erase_set_difference
  has_empty_intersection_lem xs ys = elim (Bool-cases (is_sorted o xs && is_sorted o ys)) [
    | inl both ↦ rw both (ap some (no_common-difference_erased xs ys))
    | inr other ↦ rw other refl
  ]

  last_below :
      (x y : A) (ys : List A)
      → IsSorted o (y ∷ ys)
      → less (last_from o y ys) x ≡ true
      → less y x ≡ true
  unfolding last_from
  last_below x y [] s h = h
  last_below x y (z ∷ ys) s h = trans y z x s.0.0 (last_below x z ys s.1 h)

  no_common_above :
      (x y : A) (xs ys : List A)
      → IsSorted o (y ∷ ys)
      → less (last_from o y ys) x ≡ true
      → no_common o (x ∷ xs) (y ∷ ys) ≡ true
  unfolding no_common last_from
  no_common_above x y xs [] s h = rw (no_common, asym o y x h, h) refl
  no_common_above x y xs (z ∷ ys) s h =
      let below = last_below x y (z ∷ ys) s h in
      rw (no_common, asym o y x below, below) (no_common_above x z xs ys s.1 h)

  no_common_below :
      (x y : A) (xs ys : List A)
      → IsSorted o (x ∷ xs)
      → less (last_from o x xs) y ≡ true
      → no_common o (x ∷ xs) (y ∷ ys) ≡ true
  unfolding no_common last_from
  no_common_below x y [] ys s h = rw (no_common, h) refl
  no_common_below x y (z ∷ xs) ys s h =
      let below = last_below y x (z ∷ xs) s h in
      rw (no_common, below) (no_common_below z y xs ys s.1 h)

  disjoint_loop-no_common : (xs ys : List A) → disjoint_loop o xs ys ≡ no_common o xs ys
  unfolding disjoint_loop no_common
  disjoint_loop-no_common [] ys = refl
  disjoint_loop-no_common (x ∷ xs) [] = refl
  disjoint_loop-no_common (x ∷ xs) (y ∷ ys) = ground (
    arith,
    disjoint_loop-no_common xs (y ∷ ys),
    disjoint_loop-no_common (x ∷ xs) ys,
    asym o x y,
    asym o y x,
  )

  disjoint_loop_ends :
      (x y : A) (xs ys : List A)
      → IsSorted o (x ∷ xs)
      → IsSorted o (y ∷ ys)
      → (less (last_from o y ys) x || less (last_from o x xs) y) ≡ true
      → no_common o (x ∷ xs) (y ∷ ys) ≡ true
  disjoint_loop_ends x y xs ys s t h = elim (Bool-cases (less (last_from o y ys) x)) [
    | inl above ↦ no_common_above x y xs ys t above
    | inr other ↦ no_common_below x y xs ys s (ground arith)
  ]

  is_disjoint-no_common :
      (xs ys : List A) → IsSorted o xs → IsSorted o ys → is_disjoint o xs ys ≡ no_common o xs ys
  unfolding is_disjoint no_common
  is_disjoint-no_common [] ys s t = refl
  is_disjoint-no_common (x ∷ xs) [] s t = refl
  is_disjoint-no_common (x ∷ xs) (y ∷ ys) s t =
      elim (Bool-cases (less (last_from o y ys) x || less (last_from o x xs) y)) [
        | inl apart ↦ rw apart (sym (disjoint_loop_ends x y xs ys s t apart))
        | inr meet ↦ rw meet (disjoint_loop-no_common (x ∷ xs) (y ∷ ys))
      ]

  -- On two sorted ranges `is_disjoint`, with its shortcut on the ends of the ranges, returns what
  -- `has_empty_intersection` returns.
  is_disjoint_lem :
      (xs ys : List A)
      → IsSorted o xs
      → IsSorted o ys
      → has_empty_intersection o xs ys ≡ some (is_disjoint o xs ys)
  unfolding has_empty_intersection
  is_disjoint_lem xs ys s t =
      rw (is_sorted_lem o xs s, is_sorted_lem o ys t)
        (ap some (sym (is_disjoint-no_common xs ys s t)))

  -- `set_union` holds exactly the items of its two sets.
  member-set_union :
      (a : A) (s1 s2 : List A) → member o a (set_union o s1 s2) ≡ (member o a s1 || member o a s2)
  unfolding set_union set_union_modify member
  member-set_union a s1 [] = ground arith
  member-set_union a s1 (y ∷ ys) =
      ground (arith, member-set_union a (insert o y s1) ys, member-insert o a y s1)

  -- On two ranges that pass the assertions, that is, in order and perhaps with repetitions, the
  -- container that `insert_set_complement`, `erase_set_intersection` or `erase_set_difference` leaves
  -- holds each item as often as the range that has it more often, as often as the first range has it
  -- more than the second, and as often as the range that has it less often. The `set_union` of two
  -- sets holds the items of either.
  pub count-ranges :
      (a : A) (xs ys : List A)
      → is_sorted o xs ≡ true
      → is_sorted o ys ≡ true
      → (Option.map (count o a) (insert_set_complement o xs ys)
          ≡ some (greater (count o a xs) (count o a ys)))
        × (Option.map (count o a) (erase_set_intersection o xs ys)
            ≡ some (count o a xs - count o a ys))
        × (Option.map (count o a) (erase_set_difference o xs ys)
            ≡ some (lesser (count o a xs) (count o a ys)))
        × (member o a (set_union o xs ys) ≡ (member o a xs || member o a ys))
  unfolding insert_set_complement erase_set_intersection erase_set_difference
  count-ranges a xs ys s t = (
    rw (s, t) (ap some (count-complement_inserted o a xs ys s t)),
    rw (s, t) (ap some (count-intersection_erased o a xs ys s t)),
    rw (s, t) (ap some (count-difference_erased o a xs ys s t)),
    member-set_union a xs ys,
  )
