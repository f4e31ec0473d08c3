-- ===== src/Numeric/Powers.antt =====
-- The powers of two that integer_log2, next_power_of_two and nbits_to_pack give.
use cogutil.Base.{
  ℕ, zero, suc, ◌+◌, ◌-◌, ◌^◌, ◌≤◌, ◌<◌, false, ltb, ◌==◌, ◌≡◌, refl, arith, subst, Bool-cases, inl,
  inr, ==_iff, lt→ltb,
}
use native.Mathlib.Nat.{pow-le-pow_right}
use cogutil.Numeric.{Result, integer_log2, next_power_of_two, nbits_to_pack}

-- The documentation of `__builtin_clzl`: the number of leading zeros of a word that is not zero.
pub record CountsZeros (bits : ℕ) (clzl : ℕ → ℕ) : Type 0 where
  pub within : (v : ℕ) → 0 < v → v < 2 ^ bits → clzl v < bits
  pub leading : (v : ℕ) → 0 < v → v < 2 ^ bits → 2 ^ (bits - 1 - clzl v) ≤ v
  pub bounded : (v : ℕ) → 0 < v → v < 2 ^ bits → v < 2 ^ (bits - clzl v)

pow_le : (i j : ℕ) → i ≤ j → 2 ^ i ≤ 2 ^ j
pow_le i j h = pow-le-pow_right (omega arith) h

-- A power that is not below another has no lower exponent.
exponent_le : (i j : ℕ) → 2 ^ i < 2 ^ j → i < j
exponent_le i j h = elim (Bool-cases (ltb i j)) [
  | inl less ↦ ground arith
  | inr level ↦ absurd (omega (arith, h, pow_le j i (ground arith)))
]

suc-le-pow : (m : ℕ) → suc m ≤ 2 ^ m
suc-le-pow zero = omega arith
suc-le-pow (suc m) = omega (arith, suc-le-pow m)

module _ (bits : ℕ) (clzl : ℕ → ℕ) (counts : CountsZeros bits clzl) where
  -- The word lies between the power of its logarithm and the next one.
  pub integer_log2_lem :
      (v : ℕ)
      → 0 < v
      → v < 2 ^ bits
      → (2 ^ integer_log2 bits clzl v ≤ v) × (v < 2 ^ (integer_log2 bits clzl v + 1))
  unfolding integer_log2
  integer_log2_lem v p q =
      let positive : (v == 0) ≡ false = ground (arith, p) in
      let exponent : bits - clzl v ≡ bits - 1 - clzl v + 1 = omega (arith, counts.within v p q) in
      rw positive (counts.leading v p q, subst (λ k. v < 2 ^ k) exponent (counts.bounded v p q))

  -- The least power of two that is not below `x`, where the type holds it.
  pub next_power_of_two_lem :
      (x : ℕ)
      → 0 < x
      → x ≤ 2 ^ (bits - 1)
      → 0 < bits
      → (k : ℕ) × (next_power_of_two bits clzl x ≡ Result.value (2 ^ k))
        × (x ≤ 2 ^ k)
        × ((j : ℕ) → x ≤ 2 ^ j → k ≤ j)
  unfolding next_power_of_two
  next_power_of_two_lem x p q b =
      let positive : (x == 0) ≡ false = ground (arith, p) in
      elim (Bool-cases (x == 1)) [
        | inl one ↦
            let is_one : x ≡ 1 = (==_iff x 1).0 one in
            rw (positive, one) (0, refl, omega (arith, is_one), λ j h. omega arith)
        | inr more ↦
            let y = x - 1 in
            let y_pos : 0 < y = ground (arith, more, p) in
            let y_fits : y < 2 ^ bits = omega (arith, q, p, pow_le (bits - 1) bits (omega arith)) in
            let below = counts.bounded y y_pos y_fits in
            let above = counts.leading y y_pos y_fits in
            let inside = counts.within y y_pos y_fits in
            let some_zeros : 0 < clzl y =
              omega
                (arith, exponent_le (bits - 1 - clzl y) (bits - 1) (omega (arith, above, q, p))) in
            rw (positive, more, lt→ltb (bits - clzl y) bits (omega (arith, some_zeros, b)))
              (
                bits - clzl y,
                refl,
                omega (arith, below),
                λ j h.
                    let less = exponent_le (bits - 1 - clzl y) j (omega (arith, above, h, p)) in
                    omega (arith, less, inside),
              )
      ]

  one_bit :
      0 < bits
      → (k : ℕ) × (next_power_of_two bits clzl (integer_log2 bits clzl (1 - 1) + 1)
          ≡ Result.value (2 ^ k))
        × (1 ≤ 2 ^ (2 ^ k))
        × ((j : ℕ) → 1 ≤ 2 ^ (2 ^ j) → k ≤ j)
  unfolding integer_log2 next_power_of_two
  one_bit b = (0, refl, omega arith, λ j h. omega arith)

  logarithm_le :
      (multy k : ℕ)
      → 1 < multy
      → multy ≤ 2 ^ bits
      → let log = integer_log2 bits clzl (multy - 1) in
        ((log + 1 ≤ k → multy ≤ 2 ^ k) × (multy ≤ 2 ^ k → log + 1 ≤ k)) × (log + 1 ≤ bits)
  logarithm_le multy k p q =
      let v = multy - 1 in
      let log = integer_log2 bits clzl v in
      let (above, below) = integer_log2_lem v (omega (arith, p)) (omega (arith, p, q)) in
      (
        (
          (λ h. omega (arith, below, pow_le (log + 1) k h)),
          (λ h. omega (arith, exponent_le log k (omega (arith, above, h, p)))),
        ),
        omega (arith, exponent_le log bits (omega (arith, above, p, q))),
      )

  -- On a word of at least two bits, with `__builtin_clzl` as documented, for a number of values that
  -- is not 0 and not above that of the words, nbits_to_pack gives the least power of two that is
  -- enough bits to tell the values apart.
  pub nbits_to_pack_lem :
      (multy : ℕ)
      → 0 < multy
      → multy ≤ 2 ^ bits
      → 1 < bits
      → (k : ℕ) × (nbits_to_pack bits clzl multy ≡ Result.value (2 ^ k))
        × (multy ≤ 2 ^ (2 ^ k))
        × ((j : ℕ) → multy ≤ 2 ^ (2 ^ j) → k ≤ j)
  unfolding nbits_to_pack
  nbits_to_pack_lem multy p q b = elim (Bool-cases (multy == 1)) [
    | inl one ↦ rw (nbits_to_pack, (==_iff multy 1).0 one) (one_bit (omega (arith, b)))
    | inr more ↦
        let some_values : 1 < multy = ground (arith, p, more) in
        let positive : (multy == 0) ≡ false = ground (arith, p) in
        let log = integer_log2 bits clzl (multy - 1) in
        let fits = (logarithm_le multy 0 some_values q).1 in
        let (k, power, enough, least) =
          next_power_of_two_lem (log + 1) (omega arith)
            (omega (arith, fits, b, suc-le-pow (bits - 1))) (omega (arith, b)) in
        (
          k,
          rw positive power,
          (logarithm_le multy (2 ^ k) some_values q).0.0 enough,
          λ j h. least j ((logarithm_le multy (2 ^ j) some_values q).0.1 h),
        )
  ]
