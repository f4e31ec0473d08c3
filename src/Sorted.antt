-- ===== src/Sorted.antt =====
-- `std::set` over a strict total order, as the code uses it: a list in ascending order.
pub mod Laws
use cogutil.Base.{Bool, true, false, ◌&&◌, ◌||◌, not, List, [], ◌∷◌, All, if◌then◌else◌, ◌≡◌}
use cogutil.Base.Order.{Less}

module _ {ℓ} {A : Type ℓ} (o : Less A) where
  abbrev pub same : A → A → Bool
  same a b = not (o.less a b) && not (o.less b a)

  abbrev pub Above : A → List A → Type 0
  Above a = All (λ b. o.less a b ≡ true)

  abbrev pub IsSorted : List A → Type 0
  IsSorted [] = Unit
  IsSorted (x ∷ xs) = Above x xs × IsSorted xs

  unfoldable pub member : A → List A → Bool
  member a [] = false
  member a (x ∷ xs) = same a x || member a xs

  unfoldable pub insert : A → List A → List A
  insert a [] = a ∷ []
  insert a (x ∷ xs) =
      let rest = x ∷ insert a xs in
      if o.less a x then a ∷ x ∷ xs else if o.less x a then rest else x ∷ xs

  unfoldable pub erase : A → List A → List A
  erase a [] = []
  erase a (x ∷ xs) =
      let rest = x ∷ erase a xs in if o.less a x then x ∷ xs else if o.less x a then rest else xs
