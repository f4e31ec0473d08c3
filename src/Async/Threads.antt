-- ===== src/Async/Threads.antt =====
-- Threads as a list of the places where they stand, and sums over such lists and over elements. A
-- thread that moves goes to the front of the list: which is which is of no effect.
use cogutil.Base.{
  ℕ, zero, suc, ◌+◌, ◌≤◌, Bool, true, false, List, [], ◌∷◌, ◌++◌, Option, none, some, ◌≡◌, refl,
  arith,
}
use cogutil.Concurrent.Monitor.{pick}

-- The sum of what the threads, or the elements, count for.
abbrev pub total {ℓ} : {T : Type ℓ} → (T → ℕ) → List T → ℕ
total f [] = 0
total f (t ∷ ts) = f t + total f ts

pub total-append {ℓ} :
    {T : Type ℓ} (f : T → ℕ) (xs ys : List T) → total f (xs ++ ys) ≡ total f xs + total f ys
total-append f [] ys = omega arith
total-append f (x ∷ xs) ys = omega (arith, total-append f xs ys)

-- Two lists hold the same elements, each as often: they count for the same, whatever each counts.
abbrev pub SameItems {ℓ} : {A : Type ℓ} → List A → List A → Type ℓ
SameItems {A} xs ys = (w : A → ℕ) → total w xs ≡ total w ys

abbrev skipped {ℓ} : {T : Type ℓ} → T → Option (T × List T) → Option (T × List T)
skipped x o = elim o [ none ↦ none | some (j, others) ↦ some (j, x ∷ others) ]

module _ {ℓ} {T : Type ℓ} (f : T → ℕ) where
  total-picked :
      (i : ℕ) (x t : T) (rest : List T) (ts : List T) (o : Option (T × List T))
      → ((u : T) (us : List T) → o ≡ some (u, us) → total f ts ≡ f u + total f us)
      → skipped x o ≡ some (t, rest)
      → f x + total f ts ≡ f t + total f rest
  total-picked i x t rest ts none ih h = cc
  total-picked i x t rest ts (some (u, us)) ih h = ground (arith, ih u us refl)

  pub total-pick :
      (i : ℕ) (ts : List T) (t : T) (rest : List T)
      → pick i ts ≡ some (t, rest)
      → total f ts ≡ f t + total f rest
  unfolding pick
  total-pick i [] t rest h = cc
  total-pick zero (x ∷ ts) t rest h = ground arith
  total-pick (suc i) (x ∷ ts) t rest h =
      total-picked i x t rest ts (pick i ts) (λ u us e. total-pick i ts u us e) h

-- All that the threads have, where each has a list.
abbrev pub gathered {ℓ κ} : {T : Type ℓ} {A : Type κ} → (T → List A) → List T → List A
gathered g [] = []
gathered g (t ∷ ts) = g t ++ gathered g ts

pub total-gathered {ℓ κ} :
    {T : Type ℓ} {A : Type κ} (w : A → ℕ) (g : T → List A) (ts : List T)
    → total w (gathered g ts) ≡ total (λ t. total w (g t)) ts
total-gathered w g [] = refl
total-gathered w g (t ∷ ts) =
    omega (arith, total-append w (g t) (gathered g ts), total-gathered w g ts)

-- If none of what `f` measures is there, nor is any of what `g` measures, where `f` sees it.
pub total_zero {ℓ} :
    {T : Type ℓ} (f g : T → ℕ) (ts : List T)
    → ((t : T) → f t ≡ 0 → g t ≡ 0)
    → total f ts ≡ 0
    → total g ts ≡ 0
total_zero f g [] h e = refl
total_zero f g (t ∷ ts) h e =
    omega (arith, h t (omega (arith, e)), total_zero f g ts h (omega (arith, e)))

abbrev pub repeat {ℓ} : {T : Type ℓ} → ℕ → T → List T
repeat zero t = []
repeat (suc n) t = t ∷ repeat n t

pub total-repeat {ℓ} : {T : Type ℓ} (f : T → ℕ) (n : ℕ) (t : T) → f t ≡ 0 → total f (repeat n t) ≡ 0
total-repeat f zero t e = refl
total-repeat f (suc n) t e = omega (arith, e, total-repeat f n t e)

abbrev pub bit : Bool → ℕ
bit true = 1
bit false = 0

pub bit_le : (b : Bool) → bit b ≤ 1
bit_le true = omega arith
bit_le false = omega arith
