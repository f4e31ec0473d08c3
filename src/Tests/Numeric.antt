-- ===== src/Tests/Numeric.antt =====
-- Words of eight bits.
use cogutil.Base.{
  ℕ, zero, suc, ◌+◌, ◌-◌, ◌%◌, ◌^◌, ◌≤◌, ◌<◌, ◌≢◌, some, if◌then◌else◌, ltb, ◌≡◌, refl, arith,
  Bool-cases, inl, inr, ltb→lt, subst,
}
use cogutil.Numeric.{
  Result, integer_log2, next_power_of_two, nbits_to_pack, divisor_loop, smallest_divisor,
}
use cogutil.Numeric.Powers.{CountsZeros, nbits_to_pack_lem}
use cogutil.Numeric.Divisor.{smallest_divisor_lem}

abbrev zeros : ℕ → ℕ → ℕ
zeros zero v = 0
zeros (suc b) v = if ltb v (2 ^ b) then zeros b v + 1 else 0

zeros-within : (b v : ℕ) → 0 < v → v < 2 ^ b → zeros b v < b
zeros-within zero v p q = absurd (omega (arith, p, q))
zeros-within (suc b) v p q = elim (Bool-cases (ltb v (2 ^ b))) [
  | inl low ↦ rw low (omega (arith, zeros-within b v p (ltb→lt v (2 ^ b) low)))
  | inr high ↦ rw high (omega arith)
]

zeros-leading : (b v : ℕ) → 0 < v → v < 2 ^ b → 2 ^ (b - 1 - zeros b v) ≤ v
zeros-leading zero v p q = absurd (omega (arith, p, q))
zeros-leading (suc b) v p q = elim (Bool-cases (ltb v (2 ^ b))) [
  | inl low ↦
      let same : b - 1 - zeros b v ≡ suc b - 1 - (zeros b v + 1) = omega arith in
      rw low (subst (λ k. 2 ^ k ≤ v) same (zeros-leading b v p (ltb→lt v (2 ^ b) low)))
  | inr high ↦ rw high (ground arith)
]

zeros-bounded : (b v : ℕ) → 0 < v → v < 2 ^ b → v < 2 ^ (b - zeros b v)
zeros-bounded zero v p q = absurd (omega (arith, p, q))
zeros-bounded (suc b) v p q = elim (Bool-cases (ltb v (2 ^ b))) [
  | inl low ↦
      let same : b - zeros b v ≡ suc b - (zeros b v + 1) = omega arith in
      rw low (subst (λ k. v < 2 ^ k) same (zeros-bounded b v p (ltb→lt v (2 ^ b) low)))
  | inr high ↦ let same : suc b ≡ suc b - 0 = omega arith in rw high (subst (λ k. v < 2 ^ k) same q)
]

byte-CountsZeros : CountsZeros 8 (zeros 8)
byte-CountsZeros = record {
  within = zeros-within 8;
  leading = zeros-leading 8;
  bounded = zeros-bounded 8;
}

packed : nbits_to_pack 8 (zeros 8) 50 ≡ Result.value 8
unfolding nbits_to_pack next_power_of_two integer_log2
packed = refl

nbits_to_pack_lem_example :
    (k : ℕ) × (nbits_to_pack 8 (zeros 8) 50 ≡ Result.value (2 ^ k))
    × (50 ≤ 2 ^ (2 ^ k))
    × ((j : ℕ) → 50 ≤ 2 ^ (2 ^ j) → k ≤ j)
nbits_to_pack_lem_example =
    nbits_to_pack_lem 8 (zeros 8) byte-CountsZeros 50 (omega arith) (omega arith) (omega arith)

-- The loop goes on after `16*16` has wrapped around to 0.
prime_found : smallest_divisor 256 251 ≡ some 251
unfolding smallest_divisor divisor_loop
prime_found = refl

smallest_divisor_lem_example :
    (d : ℕ) × (smallest_divisor 256 35 ≡ some d)
    × (35 % d ≡ 0)
    × (2 ≤ d)
    × ((j : ℕ) → 2 ≤ j → j < d → 35 % j ≢ 0)
smallest_divisor_lem_example = smallest_divisor_lem 256 35 (omega arith) (omega arith)
