-- ===== src/Selection/Vectors.antt =====
-- The elements of a vector after a resizing or a change of one of them.
use cogutil.Base.{
  ℕ, zero, suc, ◌<◌, ◌≤◌, List, [], ◌∷◌, Option, none, some, if◌then◌else◌, length, ◌==◌, ◌≡◌, refl,
  ap, arith,
}
use package.cogutil.Selection.{at_index, resized, changed}

module _ {ℓ} {A : Type ℓ} (d : A) where
  -- The element, or the default past the end.
  abbrev pub get_or : Option A → A
  get_or none = d
  get_or (some a) = a

  pub get_or-resized :
      (n k : ℕ) (xs : List A) → get_or (at_index k (resized n d xs)) ≡ get_or (at_index k xs)
  unfolding resized at_index
  get_or-resized zero k xs = refl
  get_or-resized (suc n) zero [] = refl
  get_or-resized (suc n) (suc k) [] = get_or-resized n k []
  get_or-resized (suc n) zero (x ∷ xs) = refl
  get_or-resized (suc n) (suc k) (x ∷ xs) = get_or-resized n k xs

  pub get_or-changed :
      (i k : ℕ) (g : A → A) (xs : List A)
      → i < length xs
      → get_or (at_index k (changed i g xs))
        ≡ (if i == k then g (get_or (at_index k xs)) else get_or (at_index k xs))
  unfolding changed at_index
  get_or-changed i k g [] h = absurd (omega (arith, h))
  get_or-changed zero zero g (x ∷ xs) h = refl
  get_or-changed zero (suc k) g (x ∷ xs) h = ground arith
  get_or-changed (suc i) zero g (x ∷ xs) h = ground arith
  get_or-changed (suc i) (suc k) g (x ∷ xs) h =
      ground (arith, get_or-changed i k g xs (omega (arith, h)))

  pub length-resized : (n : ℕ) (xs : List A) → n ≤ length (resized n d xs)
  unfolding resized
  length-resized zero xs = omega arith
  length-resized (suc n) [] = omega (arith, length-resized n [])
  length-resized (suc n) (x ∷ xs) = omega (arith, length-resized n xs)

module _ {ℓ} {A : Type ℓ} where
  pub length-changed : (i : ℕ) (g : A → A) (xs : List A) → length (changed i g xs) ≡ length xs
  unfolding changed
  length-changed i g [] = refl
  length-changed zero g (x ∷ xs) = refl
  length-changed (suc i) g (x ∷ xs) = ap suc (length-changed i g xs)
