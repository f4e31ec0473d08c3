-- ===== src/Digraph/Sort/Counting.antt =====
-- How often a number is in a list.
use cogutil.Base.{
  ℕ, zero, suc, ◌+◌, ◌≤◌, ◌<◌, true, ◌&&◌, List, [], ◌∷◌, ◌++◌, if◌then◌else◌, ltb, leb, ◌==◌, ◌≡◌,
  refl, arith, length, All,
}
use cogutil.Base.Order.{nat_less}
use cogutil.Sorted.{member}
use cogutil.Sorted.Laws.{same_refl}
use cogutil.Digraph.{count_from}

abbrev pub occurrences : ℕ → List ℕ → ℕ
occurrences x [] = 0
occurrences x (y ∷ ys) = (if y == x then 1 else 0) + occurrences x ys

pub occurrences-append :
    (x : ℕ) (xs ys : List ℕ) → occurrences x (xs ++ ys) ≡ occurrences x xs + occurrences x ys
occurrences-append x [] ys = omega arith
occurrences-append x (y ∷ xs) ys = omega (arith, occurrences-append x xs ys)

pub occurs_first : (x : ℕ) (xs : List ℕ) → occurrences x (x ∷ xs) ≡ suc (occurrences x xs)
occurs_first x xs = ground arith

-- What holds of every number that is in the list.
pub occurrences-All :
    {P : ℕ → Type 0} (xs : List ℕ) → ((x : ℕ) → 0 < occurrences x xs → P x) → All P xs
occurrences-All [] h = tt
occurrences-All (y ∷ ys) h =
    (h y (omega (arith, occurs_first y ys)), occurrences-All ys (λ x p. h x (omega (arith, p))))

pub occurrences-count_from :
    (x k i : ℕ) → occurrences x (count_from k i) ≡ (if leb i x && ltb x (i + k) then 1 else 0)
occurrences-count_from x zero i = ground arith
occurrences-count_from x (suc k) i = ground (arith, occurrences-count_from x k (i + 1))

-- The numbers in the list that are below `n`.
abbrev tally : ℕ → List ℕ → ℕ
tally zero xs = 0
tally (suc n) xs = occurrences n xs + tally n xs

tally_nil : (n : ℕ) → tally n [] ≡ 0
tally_nil zero = refl
tally_nil (suc n) = omega (arith, tally_nil n)

tally_cons : (n y : ℕ) (ys : List ℕ) → tally n (y ∷ ys) ≡ (if ltb y n then 1 else 0) + tally n ys
tally_cons zero y ys = ground arith
tally_cons (suc n) y ys = ground (arith, tally_cons n y ys)

length-tally :
    (n : ℕ) (xs : List ℕ) → ((x : ℕ) → 0 < occurrences x xs → x < n) → length xs ≡ tally n xs
length-tally n [] h = omega (arith, tally_nil n)
length-tally n (y ∷ ys) h =
    let below = h y (omega (arith, occurs_first y ys)) in
    ground (arith, tally_cons n y ys, below, length-tally n ys (λ x p. h x (omega (arith, p))))

tally_le : (n : ℕ) (xs : List ℕ) → ((x : ℕ) → occurrences x xs ≤ 1) → tally n xs ≤ n
tally_le zero xs h = omega arith
tally_le (suc n) xs h = omega (arith, tally_le n xs h, h n)

-- A list of different numbers below `n` is no longer than `n`.
pub length-le :
    (n : ℕ) (xs : List ℕ)
    → ((x : ℕ) → occurrences x xs ≤ (if ltb x n then 1 else 0))
    → length xs ≤ n
length-le n xs h = omega (
  arith,
  length-tally n xs (λ x p. ground (arith, h x, p)),
  tally_le n xs (λ x. ground (arith, h x)),
)

-- What holds of every item of a set.
pub member-All :
    {P : ℕ → Type 0} (xs : List ℕ) → ((d : ℕ) → member nat_less d xs ≡ true → P d) → All P xs
unfolding member
member-All [] h = tt
member-All (x ∷ xs) h =
    (h x (ground (arith, same_refl nat_less x)), member-All xs (λ d e. h d (ground (arith, e))))
