-- ===== src/Tests/Counter.antt =====
-- Counters of numbers.
use cogutil.Base.{ℕ, ◌+◌, ◌-◌, ◌*◌, ◌/◌, List, [], ◌∷◌, some, ◌≡◌, refl, ltb}
use cogutil.Base.Order.{nat_less}
use cogutil.Counter.{Number, find, multiply, mode}
use cogutil.Counter.Product.{find-multiply, product}

abbrev numbers : Number ℕ
numbers = record { zero = 0; one = 1; plus = ◌+◌; minus = ◌-◌; times = ◌*◌; over = ◌/◌; lt = ltb }

-- 1 counts for 2, 2 for 5 and 3 for 3.
abbrev counts : List (ℕ × ℕ)
counts = (1, 2) ∷ (2, 5) ∷ (3, 3) ∷ []

abbrev others : List (ℕ × ℕ)
others = (2, 4) ∷ (7, 1) ∷ []

find-multiply_example :
    find nat_less numbers 2 (multiply nat_less numbers counts others)
    ≡ product nat_less numbers (find nat_less numbers 2 counts) (find nat_less numbers 2 others)
find-multiply_example =
    find-multiply nat_less numbers 2 counts others ((refl, (refl, tt)), ((refl, tt), (tt, tt)))
      ((refl, tt), (tt, tt))

-- 2 has the greatest count, and `mode` returns 3.
mode_returns_last : mode nat_less numbers counts ≡ some 3
unfolding mode
mode_returns_last = refl
