-- ===== src/Algorithm/Merges.antt =====
-- The merges of opencog/util/algorithm.h, by how often an item is in their results.
use cogutil.Base.{
  ℕ, ◌+◌, ◌-◌, leb, if◌then◌else◌, true, false, List, [], ◌∷◌, ◌≡◌, refl, arith, Bool-cases, inl,
  inr, sym, ap, subst,
}
use cogutil.Base.Order.{Less}
use cogutil.Sorted.{same, IsSorted}
use cogutil.Sorted.Laws.{asym, same_eq}
use cogutil.Algorithm.{is_sorted, intersection_erased, difference_erased, complement_inserted}

abbrev pub lesser : ℕ → ℕ → ℕ
lesser m n = if leb m n then m else n

abbrev pub greater : ℕ → ℕ → ℕ
greater m n = if leb m n then n else m

module _ {ℓ} {A : Type ℓ} (o : Less A) where
  open o use {less, irrefl, trans, total}

  pub is_sorted_lem : (xs : List A) → IsSorted o xs → is_sorted o xs ≡ true
  unfolding is_sorted
  is_sorted_lem [] s = refl
  is_sorted_lem (x ∷ []) s = refl
  is_sorted_lem (x ∷ y ∷ xs) s = rw (asym o x y s.0.0) (is_sorted_lem (y ∷ xs) s.1)

  -- How often an item is in a range, up to the order.
  unfoldable pub count : A → List A → ℕ
  count a [] = 0
  count a (x ∷ xs) = (if same o a x then 1 else 0) + count a xs

  sorted_tail : (x : A) (xs : List A) → is_sorted o (x ∷ xs) ≡ true → is_sorted o xs ≡ true
  unfolding is_sorted
  sorted_tail x [] s = refl
  sorted_tail x (y ∷ xs) s = ground arith

  sorted_head : (x y : A) (xs : List A) → is_sorted o (x ∷ y ∷ xs) ≡ true → less y x ≡ false
  unfolding is_sorted
  sorted_head x y xs s = ground arith

  still_below : (a x y : A) → less a x ≡ true → less y x ≡ false → less a y ≡ true
  still_below a x y h k = elim (Bool-cases (less a y)) [
    | inl below ↦ below
    | inr level ↦ elim (Bool-cases (less y a)) [
      | inl above ↦ cc (trans y a x above h, k)
      | inr equal ↦ cc (total a y level equal, h, k)
    ]
  ]

  -- What is below the first item of a sorted range is not in it.
  count_below :
      (a x : A) (xs : List A) → less a x ≡ true → is_sorted o (x ∷ xs) ≡ true → count a (x ∷ xs) ≡ 0
  unfolding count
  count_below a x [] h s = ground arith
  count_below a x (y ∷ xs) h s = ground (
    arith,
    count_below a y xs (still_below a x y h (sorted_head x y xs s)) (sorted_tail x (y ∷ xs) s),
    h,
  )

  -- An item that is the first of one range is not in a range that begins above it.
  absent_below :
      (a x y : A) (ys : List A)
      → less x y ≡ true
      → is_sorted o (y ∷ ys) ≡ true
      → same o a x ≡ true
      → count a (y ∷ ys) ≡ 0
  absent_below a x y ys h t e =
      subst (λ z. count z (y ∷ ys) ≡ 0) (sym (same_eq o a x e)) (count_below x y ys h t)

  -- Two items of which neither is below the other are the same.
  same_level : (a x y : A) → less x y ≡ false → less y x ≡ false → same o a x ≡ same o a y
  same_level a x y h k = ap (same o a) (total x y h k)

  pub count-intersection_erased :
      (a : A) (xs ys : List A)
      → is_sorted o xs ≡ true
      → is_sorted o ys ≡ true
      → count a (intersection_erased o xs ys) ≡ count a xs - count a ys
  unfolding intersection_erased count
  count-intersection_erased a [] ys s t = omega arith
  count-intersection_erased a (x ∷ xs) [] s t = omega arith
  count-intersection_erased a (x ∷ xs) (y ∷ ys) s t =
      let s' = sorted_tail x xs s in
      let t' = sorted_tail y ys t in
      elim (Bool-cases (less x y)) [
        | inl below ↦
            let ih = count-intersection_erased a xs (y ∷ ys) s' t in
            rw (below, intersection_erased) (ground (arith, ih, absent_below a x y ys below t))
        | inr level ↦ elim (Bool-cases (less y x)) [
          | inl above ↦
              let ih = count-intersection_erased a (x ∷ xs) ys s t' in
              rw (level, above, intersection_erased)
                (ground (arith, ih, absent_below a y x xs above s))
          | inr equal ↦
              let ih = count-intersection_erased a xs ys s' t' in
              rw (level, equal, intersection_erased)
                (ground (arith, ih, same_level a x y level equal))
        ]
      ]

  pub count-difference_erased :
      (a : A) (xs ys : List A)
      → is_sorted o xs ≡ true
      → is_sorted o ys ≡ true
      → count a (difference_erased o xs ys) ≡ lesser (count a xs) (count a ys)
  unfolding difference_erased count
  count-difference_erased a [] ys s t = ground arith
  count-difference_erased a (x ∷ xs) [] s t = ground arith
  count-difference_erased a (x ∷ xs) (y ∷ ys) s t =
      let s' = sorted_tail x xs s in
      let t' = sorted_tail y ys t in
      elim (Bool-cases (less x y)) [
        | inl below ↦
            let ih = count-difference_erased a xs (y ∷ ys) s' t in
            rw (below, difference_erased) (ground (arith, ih, absent_below a x y ys below t))
        | inr level ↦ elim (Bool-cases (less y x)) [
          | inl above ↦
              let ih = count-difference_erased a (x ∷ xs) ys s t' in
              rw (level, above, difference_erased)
                (ground (arith, ih, absent_below a y x xs above s))
          | inr equal ↦
              let ih = count-difference_erased a xs ys s' t' in
              rw (level, equal, difference_erased)
                (ground (arith, ih, same_level a x y level equal))
        ]
      ]

  pub count-complement_inserted :
      (a : A) (xs ys : List A)
      → is_sorted o xs ≡ true
      → is_sorted o ys ≡ true
      → count a (complement_inserted o xs ys) ≡ greater (count a xs) (count a ys)
  unfolding complement_inserted count
  count-complement_inserted a [] ys s t = ground arith
  count-complement_inserted a (x ∷ xs) [] s t = ground arith
  count-complement_inserted a (x ∷ xs) (y ∷ ys) s t =
      let s' = sorted_tail x xs s in
      let t' = sorted_tail y ys t in
      elim (Bool-cases (less x y)) [
        | inl below ↦
            let ih = count-complement_inserted a xs (y ∷ ys) s' t in
            rw (below, complement_inserted) (ground (arith, ih, absent_below a x y ys below t))
        | inr level ↦ elim (Bool-cases (less y x)) [
          | inl above ↦
              let ih = count-complement_inserted a (x ∷ xs) ys s t' in
              rw (level, above, complement_inserted)
                (ground (arith, ih, absent_below a y x xs above s))
          | inr equal ↦
              let ih = count-complement_inserted a xs ys s' t' in
              rw (level, equal, complement_inserted)
                (ground (arith, ih, same_level a x y level equal))
        ]
      ]
