-- ===== src/Numeric/Divisor.antt =====
-- What smallest_divisor finds.
use cogutil.Base.{
  ℕ, zero, suc, ◌+◌, ◌-◌, ◌*◌, ◌/◌, ◌%◌, ◌≤◌, ◌<◌, ◌≢◌, false, Option, some, ltb, leb, ◌==◌, ◌≡◌,
  refl, sym, ◌∙◌, ap, arith, Bool-cases, inl, inr, ==_iff, ltb→lt, subst,
}
use native.Mathlib.Nat.{
  mod-eq_of_lt, mul-le-mul_left, mul-le-mul_right, mul-mod_left, mod-le, mod_self, add-mod_right,
  div-add-mod, le_trans,
}
use cogutil.Numeric.{divisor_loop, smallest_divisor}

-- No number from 2 on and below `i` divides `n`.
abbrev pub NoneBelow : ℕ → ℕ → Type 0
NoneBelow n i = (j : ℕ) → 2 ≤ j → j < i → n % j ≢ 0

not_below : (a b : ℕ) → ltb a b ≡ false → b ≤ a
not_below a b h = ground arith

quotient_two : (n j k : ℕ) → j * k ≡ n → j < n → 2 ≤ k
quotient_two n j zero e h = absurd (omega (arith, e, h))
quotient_two n j (suc zero) e h = absurd (omega (arith, e, h))
quotient_two n j (suc (suc k)) e h = omega arith

before_last : (n i : ℕ) → i ≤ n → n % i ≢ 0 → i < n
before_last n i le apart = elim (Bool-cases (ltb i n)) [
  | inl less ↦ ltb→lt i n less
  | inr level ↦
      let same : i ≡ n = omega (arith, not_below i n level, le) in
      absurd (apart (ap (λ m. n % m) same ∙ mod_self n))
]

-- If no number below `i` divides `n` and `n` is below the square of `i`, then none below `n` does.
square_lem : (n i : ℕ) → 2 ≤ i → n < i * i → NoneBelow n i → NoneBelow n n
square_lem n i two above below j p q divides =
    let k = n / j in
    let product : j * k ≡ n = omega (arith, div-add-mod n j, divides) in
    let k_two : 2 ≤ k = quotient_two n j k product q in
    elim (Bool-cases (ltb j i)) [
      | inl j_below ↦ below j p (ltb→lt j i j_below) divides
      | inr j_above ↦ elim (Bool-cases (ltb k i)) [
        | inl k_below ↦
            below k k_two (ltb→lt k i k_below) (ap (λ m. m % k) (sym product) ∙ mul-mod_left j k)
        | inr k_above ↦
            let squares : i * i ≤ j * k =
              le_trans (mul-le-mul_left i (omega (arith, not_below k i k_above)))
                (mul-le-mul_right k (not_below j i j_above)) in
            omega (arith, squares, product, above)
      ]
    ]

next-NoneBelow : (n i : ℕ) → n % i ≢ 0 → NoneBelow n i → NoneBelow n (suc i)
next-NoneBelow n i here below j p q divides = elim (Bool-cases (j == i)) [
  | inl at ↦ here (ap (λ m. n % m) (sym ((==_iff j i).0 at)) ∙ divides)
  | inr other ↦ below j p (ground (arith, q, other)) divides
]

-- `i++` and `i-1` in the type.
wrap_lem : (word i : ℕ) → i < word → ((i + 1) % word + word - 1) % word ≡ i
wrap_lem word i h = elim (Bool-cases (i + 1 == word)) [
  | inl last ↦
      let at_end : i + 1 ≡ word = (==_iff (i + 1) word).0 last in
      ap (λ m. (m + word - 1) % word) (ap (λ m. m % word) at_end ∙ mod_self word)
      ∙ ap (λ m. m % word) (omega (arith, at_end))
      ∙ mod-eq_of_lt h
  | inr inside ↦
      ap (λ m. (m + word - 1) % word) (mod-eq_of_lt (ground (arith, h, inside)))
      ∙ ap (λ m. m % word) (omega arith)
      ∙ add-mod_right i word
      ∙ mod-eq_of_lt h
]

abbrev Found : ℕ → Option ℕ → Type 0
Found n o = (d : ℕ) × (o ≡ some d) × (n % d ≡ 0) × (2 ≤ d) × NoneBelow n d

divisor_loop_lem :
    (word n fuel i : ℕ)
    → n < word
    → 2 ≤ i
    → i ≤ n
    → n < fuel + i
    → NoneBelow n i
    → Found n (divisor_loop word n fuel i)
unfolding divisor_loop
divisor_loop_lem word n zero i w two le enough below = absurd (omega (arith, enough, le))
divisor_loop_lem word n (suc fuel) i w two le enough below =
    elim (Bool-cases (leb (i * i % word) n)) [
      | inl inside ↦ elim (Bool-cases (n % i == 0)) [
        | inl divides ↦
            rw (inside, divides, wrap_lem word i (omega (arith, w, le)))
              (i, refl, (==_iff (n % i) 0).0 divides, two, below)
        | inr other ↦
            let apart : n % i ≢ 0 = λ e. ground (arith, other, e) in
            let less : i < n = before_last n i le apart in
            rw (inside, other)
              (subst (λ m. Found n (divisor_loop word n fuel m))
                (sym (mod-eq_of_lt (omega (arith, w, less)) ∙ omega arith))
                (divisor_loop_lem word n fuel (suc i) w (omega (arith, two)) less
                  (omega (arith, enough)) (next-NoneBelow n i apart below)))
      ]
      | inr beyond ↦
          let above : n < i * i = ground (arith, beyond, mod-le (i * i) word) in
          rw beyond (n, refl, mod_self n, omega (arith, two, le), square_lem n i two above below)
    ]

-- On an unsigned type that holds `n` the loop ends, although `i*i` may wrap around, and gives the
-- least divisor of `n` that is not 1.
pub smallest_divisor_lem :
    (word n : ℕ)
    → n < word
    → 2 ≤ n
    → (d : ℕ) × (smallest_divisor word n ≡ some d)
      × (n % d ≡ 0)
      × (2 ≤ d)
      × ((j : ℕ) → 2 ≤ j → j < d → n % j ≢ 0)
unfolding smallest_divisor
smallest_divisor_lem word n w two = elim (Bool-cases (ltb n 3)) [
  | inl small ↦
      let is_two : n ≡ 2 = ground (arith, small, two) in
      rw (is_two, smallest_divisor)
        (2, refl, refl, omega arith, λ j p q. absurd (omega (arith, p, q)))
  | inr large ↦
      let positive : (n == 0) ≡ false = ground (arith, two) in
      rw (positive, large)
        (divisor_loop_lem word n n 2 w (omega arith) two (omega (arith, two))
          (λ j p q. absurd (omega (arith, p, q))))
]
