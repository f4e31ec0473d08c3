-- ===== src/Algorithm.antt =====
-- opencog/util/algorithm.h: merges of two sorted ranges, subsets and tuples. A range is the list of
-- what its iterators pass; a callback that erases or inserts is modelled by the range that the
-- container holds afterwards. `none` is a failed assertion that a range is sorted.
pub mod Merges
pub mod Ranges
use cogutil.Base.{
  ℕ, zero, suc, Bool, true, false, ◌||◌, ◌&&◌, not, List, [], ◌∷◌, ◌++◌, Option, none, some,
  if◌then◌else◌, is_nil,
}
use cogutil.Base.Order.{Less}
use cogutil.Sorted

module _ {ℓ} {A : Type ℓ} (o : Less A) where
  -- `std::is_sorted`: no item is below the one before it.
  unfoldable pub is_sorted : List A → Bool
  is_sorted [] = true
  is_sorted (x ∷ []) = true
  is_sorted (x ∷ y ∷ xs) = if o.less y x then false else is_sorted (y ∷ xs)

  unfoldable pub intersection_erased : List A → List A → List A
  intersection_erased [] ys = []
  intersection_erased (x ∷ xs) [] = x ∷ xs
  intersection_erased (x ∷ xs) (y ∷ ys) = elim (o.less x y) [
    | true ↦ x ∷ intersection_erased xs (y ∷ ys)
    | false ↦ elim (o.less y x) [
      | true ↦ intersection_erased (x ∷ xs) ys
      | false ↦ intersection_erased xs ys
    ]
  ]

  unfoldable pub erase_set_intersection : List A → List A → Option (List A)
  unfolding is_sorted intersection_erased
  erase_set_intersection xs ys =
      if is_sorted xs && is_sorted ys then some (intersection_erased xs ys) else none

  -- The last loop erases all that is left of the first range.
  unfoldable pub difference_erased : List A → List A → List A
  difference_erased [] ys = []
  difference_erased (x ∷ xs) [] = []
  difference_erased (x ∷ xs) (y ∷ ys) = elim (o.less x y) [
    | true ↦ difference_erased xs (y ∷ ys)
    | false ↦ elim (o.less y x) [
      | true ↦ difference_erased (x ∷ xs) ys
      | false ↦ x ∷ difference_erased xs ys
    ]
  ]

  unfoldable pub erase_set_difference : List A → List A → Option (List A)
  unfolding is_sorted difference_erased
  erase_set_difference xs ys =
      if is_sorted xs && is_sorted ys then some (difference_erased xs ys) else none

  -- Each item is inserted where the first iterator stands; the last loop inserts at the end.
  unfoldable pub complement_inserted : List A → List A → List A
  complement_inserted [] ys = ys
  complement_inserted (x ∷ xs) [] = x ∷ xs
  complement_inserted (x ∷ xs) (y ∷ ys) = elim (o.less x y) [
    | true ↦ x ∷ complement_inserted xs (y ∷ ys)
    | false ↦ elim (o.less y x) [
      | true ↦ y ∷ complement_inserted (x ∷ xs) ys
      | false ↦ x ∷ complement_inserted xs ys
    ]
  ]

  unfoldable pub insert_set_complement : List A → List A → Option (List A)
  unfolding is_sorted complement_inserted
  insert_set_complement xs ys =
      if is_sorted xs && is_sorted ys then some (complement_inserted xs ys) else none

  unfoldable pub no_common : List A → List A → Bool
  no_common [] ys = true
  no_common (x ∷ xs) [] = true
  no_common (x ∷ xs) (y ∷ ys) = elim (o.less x y) [
    | true ↦ no_common xs (y ∷ ys)
    | false ↦ elim (o.less y x) [ true ↦ no_common (x ∷ xs) ys | false ↦ false ]
  ]

  unfoldable pub has_empty_intersection : List A → List A → Option Bool
  unfolding is_sorted no_common
  has_empty_intersection xs ys =
      if is_sorted xs && is_sorted ys then some (no_common xs ys) else none

  -- `*set.rbegin()`, for a set with a first item.
  unfoldable pub last_from : A → List A → A
  last_from x [] = x
  last_from x (y ∷ ys) = last_from y ys

  -- The loop of `is_disjoint`, which tests equality first.
  unfoldable pub disjoint_loop : List A → List A → Bool
  disjoint_loop [] ys = true
  disjoint_loop (x ∷ xs) [] = true
  disjoint_loop (x ∷ xs) (y ∷ ys) = elim (Sorted.same o x y) [
    | true ↦ false
    | false ↦ elim (o.less x y) [
      | true ↦ disjoint_loop xs (y ∷ ys)
      | false ↦ disjoint_loop (x ∷ xs) ys
    ]
  ]

  unfoldable pub is_disjoint : List A → List A → Bool
  unfolding last_from disjoint_loop
  is_disjoint [] ys = true
  is_disjoint (x ∷ xs) [] = true
  is_disjoint (x ∷ xs) (y ∷ ys) =
      if o.less (last_from y ys) x || o.less (last_from x xs) y
      then true
      else disjoint_loop (x ∷ xs) (y ∷ ys)

  unfoldable pub set_union_modify : List A → List A → List A
  set_union_modify s1 [] = s1
  set_union_modify s1 (y ∷ ys) = set_union_modify (Sorted.insert o y s1) ys

  unfoldable pub set_union : List A → List A → List A
  unfolding set_union_modify
  set_union s1 s2 = set_union_modify s1 s2

module _ {ℓ} {A : Type ℓ} where
  -- The result is a `std::set` of tuples; here they stand in the order in which they are made.
  unfoldable pub extended : List A → List A → List (List A)
  extended t [] = []
  extended t (x ∷ xs) = (t ++ x ∷ []) ∷ extended t xs

  unfoldable pub all_extended : List (List A) → List A → List (List A)
  unfolding extended
  all_extended [] c = []
  all_extended (t ∷ ts) c = extended t c ++ all_extended ts c

  unfoldable pub cartesian_product : List A → ℕ → List (List A)
  unfolding all_extended
  cartesian_product c zero = [] ∷ []
  cartesian_product c (suc nfold) = all_extended (cartesian_product c nfold) c
