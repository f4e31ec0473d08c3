-- ===== src/Sorted/Laws.antt =====
-- Order, membership and sizes of sorted lists.
use cogutil.Base.{
  ◌+◌, ◌≤◌, length, true, false, ◌&&◌, ◌||◌, not, List, [], ◌∷◌, ◌++◌, All, if◌then◌else◌, ◌≡◌,
  refl, ap, arith, ◌∙◌, sym, subst,
}
use cogutil.Base.Order.{Less}
use cogutil.Sorted.{same, Above, IsSorted, member, insert, erase}

module _ {ℓ} {A : Type ℓ} (o : Less A) where
  open o use {less, irrefl, trans, total}

  pub asym : (a b : A) → less a b ≡ true → less b a ≡ false
  asym a b h = ground (arith, trans a b a, irrefl a)

  pub same_refl : (a : A) → same o a a ≡ true
  same_refl a = ground (arith, irrefl a)

  pub same_eq : (a b : A) → same o a b ≡ true → a ≡ b
  same_eq a b h = ground (arith, total a b)

  pub Above-trans : (a b : A) (xs : List A) → less a b ≡ true → Above o b xs → Above o a xs
  Above-trans a b [] h v = tt
  Above-trans a b (x ∷ xs) h v = (trans a b x h v.0, Above-trans a b xs h v.1)

  Above-insert :
      (a b : A) (xs : List A) → less a b ≡ true → Above o a xs → Above o a (insert o b xs)
  unfolding insert
  Above-insert a b [] h v = (h, tt)
  Above-insert a b (x ∷ xs) h v = ground (arith, Above-insert a b xs h v.1)

  pub insert-IsSorted : (a : A) (xs : List A) → IsSorted o xs → IsSorted o (insert o a xs)
  unfolding insert
  insert-IsSorted a [] s = (tt, tt)
  insert-IsSorted a (x ∷ xs) s =
      ground (arith, insert-IsSorted a xs s.1, Above-trans a x xs, Above-insert x a xs)

  Above-erase : (a b : A) (xs : List A) → Above o a xs → Above o a (erase o b xs)
  unfolding erase
  Above-erase a b [] v = tt
  Above-erase a b (x ∷ xs) v = ground (arith, Above-erase a b xs v.1)

  pub erase-IsSorted : (a : A) (xs : List A) → IsSorted o xs → IsSorted o (erase o a xs)
  unfolding erase
  erase-IsSorted a [] s = tt
  erase-IsSorted a (x ∷ xs) s = ground (arith, erase-IsSorted a xs s.1, Above-erase x a xs s.0)

  pub member-insert :
      (a b : A) (xs : List A) → member o a (insert o b xs) ≡ (same o a b || member o a xs)
  unfolding member insert
  member-insert a b [] = refl
  member-insert a b (x ∷ xs) = ground (arith, member-insert a b xs, total b x)

  -- What is below the first item is not in the set.
  pub member_below : (a : A) (xs : List A) → Above o a xs → member o a xs ≡ false
  unfolding member
  member_below a [] v = refl
  member_below a (x ∷ xs) v = ground (arith, member_below a xs v.1)

  pub member-erase :
      (a b : A) (xs : List A)
      → IsSorted o xs
      → member o a (erase o b xs) ≡ (not (same o a b) && member o a xs)
  unfolding member erase
  member-erase a b [] s = ground arith
  member-erase a b (x ∷ xs) s = ground (
    arith,
    member-erase a b xs s.1,
    total b x,
    total a b,
    total a x,
    member_below a xs,
    member_below x xs s.0,
    Above-trans a x xs,
  )

  not_below :
      (x y : A) (xs ys : List A)
      → Above o y ys
      → member o x (x ∷ xs) ≡ member o x (y ∷ ys)
      → less x y ≡ false
  unfolding member
  not_below x y xs ys v h =
      ground (arith, irrefl x, asym x y, member_below x (y ∷ ys), Above-trans x y ys)

  member_tail :
      (a x : A) (xs ys : List A)
      → Above o x xs
      → Above o x ys
      → member o a (x ∷ xs) ≡ member o a (x ∷ ys)
      → member o a xs ≡ member o a ys
  unfolding member
  member_tail a x xs ys v w h = ground (arith, total a x, member_below x xs v, member_below x ys w)

  -- Two sorted lists with the same members are the same list.
  pub IsSorted-ext :
      (xs ys : List A)
      → IsSorted o xs
      → IsSorted o ys
      → ((a : A) → member o a xs ≡ member o a ys)
      → xs ≡ ys
  unfolding member
  IsSorted-ext [] [] s t h = refl
  IsSorted-ext [] (y ∷ ys) s t h = ground (arith, h y, irrefl y)
  IsSorted-ext (x ∷ xs) [] s t h = ground (arith, h x, irrefl x)
  IsSorted-ext (x ∷ xs) (y ∷ ys) s t h =
      let heads : x ≡ y =
        total x y (not_below x y xs ys t.0 (h x)) (not_below y x ys xs s.0 (sym (h y))) in
      let above : Above o x ys = subst (λ z. Above o z ys) (sym heads) t.0 in
      let tails : (a : A) → member o a xs ≡ member o a ys =
        λ a. member_tail a x xs ys s.0 above (h a ∙ ap (λ z. member o a (z ∷ ys)) (sym heads)) in
      cc (heads, IsSorted-ext xs ys s.1 t.1 tails)

  -- An insertion adds an item exactly where it was not there.
  pub length-insert :
      (a : A) (xs : List A)
      → IsSorted o xs
      → length (insert o a xs) ≡ length xs + (if member o a xs then 0 else 1)
  unfolding insert member
  length-insert a [] s = refl
  length-insert a (x ∷ xs) s =
      ground (arith, length-insert a xs s.1, member_below a xs, Above-trans a x xs, asym a x)

  -- An erasure takes one item away exactly where it was there.
  pub length-erase :
      (a : A) (xs : List A)
      → IsSorted o xs
      → length (erase o a xs) + (if member o a xs then 1 else 0) ≡ length xs
  unfolding erase member
  length-erase a [] s = refl
  length-erase a (x ∷ xs) s =
      ground (arith, length-erase a xs s.1, member_below a xs, Above-trans a x xs, asym a x)

  pub length-insert-le : (a : A) (xs : List A) → length (insert o a xs) ≤ length xs + 1
  unfolding insert
  length-insert-le a [] = omega arith
  length-insert-le a (x ∷ xs) = ground (arith, length-insert-le a xs)

  pub length-erase-le : (a : A) (xs : List A) → length (erase o a xs) ≤ length xs
  unfolding erase
  length-erase-le a [] = omega arith
  length-erase-le a (x ∷ xs) = ground (arith, length-erase-le a xs)

  pub Above-append : (a : A) (xs ys : List A) → Above o a (xs ++ ys) → Above o a xs × Above o a ys
  Above-append a [] ys v = (tt, v)
  Above-append a (x ∷ xs) ys v = let (p, q) = Above-append a xs ys v.1 in ((v.0, p), q)

  pub IsSorted-append : (xs ys : List A) → IsSorted o (xs ++ ys) → IsSorted o xs × IsSorted o ys
  IsSorted-append [] ys s = (tt, s)
  IsSorted-append (x ∷ xs) ys s =
      let (p, q) = IsSorted-append xs ys s.1 in (((Above-append x xs ys s.0).0, p), q)

  -- The last item of a sorted list is above the others.
  pub IsSorted-last :
      (xs : List A) (x : A) → IsSorted o (xs ++ x ∷ []) → All (λ b. less b x ≡ true) xs
  IsSorted-last [] x s = tt
  IsSorted-last (y ∷ xs) x s = ((Above-append y xs (x ∷ []) s.0).1.0, IsSorted-last xs x s.1)

  pub member-append :
      (a : A) (xs ys : List A) → member o a (xs ++ ys) ≡ (member o a xs || member o a ys)
  unfolding member
  member-append a [] ys = refl
  member-append a (x ∷ xs) ys = ground (arith, member-append a xs ys)
