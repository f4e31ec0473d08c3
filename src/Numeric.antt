-- ===== src/Numeric.antt =====
-- opencog/util/numeric.h: the functions on integers. A word has `bits` bits, 8*sizeof of the type;
-- `clzl` is the compiler's `__builtin_clzl`.
pub mod Powers
pub mod Divisor
use cogutil.Base.{
  ℕ, zero, suc, ◌+◌, ◌-◌, ◌*◌, ◌%◌, ◌^◌, Bool, Option, none, some, if◌then◌else◌, ltb, leb, ◌==◌,
}

-- `asserted` is an assertion that fails, `undefined` a shift by the width of the type.
pub data Result : Type 0 where
  value : ℕ → Result
  asserted undefined : Result

module _ (bits : ℕ) where
  -- `1UL << k`.
  abbrev pub shifted : ℕ → Result
  shifted k = if ltb k bits then Result.value (2 ^ k) else Result.undefined

  -- `pow2`, where `bits` are the bits without the sign.
  unfoldable pub pow2 : ℕ → Result
  pow2 x = if ltb x bits then shifted x else Result.asserted

  module _ (clzl : ℕ → ℕ) where
    unfoldable pub integer_log2 : ℕ → ℕ
    integer_log2 v = if v == 0 then 0 else bits - 1 - clzl v

    unfoldable pub next_power_of_two : ℕ → Result
    next_power_of_two x =
        if x == 0
        then Result.asserted
        else if x == 1
        then Result.value 1
        else shifted (bits - clzl (x - 1))

    unfoldable pub nbits_to_pack : ℕ → Result
    unfolding integer_log2 next_power_of_two
    nbits_to_pack multy =
        if multy == 0 then Result.asserted else next_power_of_two (integer_log2 (multy - 1) + 1)

-- The loop of `smallest_divisor` on an unsigned type with `word` values, in which `i*i` and `i++`
-- wrap around; `none` is a loop that is longer than its fuel. The type is one that is not promoted to
-- int in `i*i`, which unsigned char and unsigned short are.
unfoldable pub divisor_loop : ℕ → ℕ → ℕ → ℕ → Option ℕ
divisor_loop word n zero i = none
divisor_loop word n (suc fuel) i =
    let next = (i + 1) % word in
    let rest = divisor_loop word n fuel next in
    if leb (i * i % word) n
    then if n % i == 0 then some ((next + word - 1) % word) else rest
    else some n

-- No number from 2 on needs more rounds than `n`, which divides itself.
unfoldable pub smallest_divisor : ℕ → ℕ → Option ℕ
unfolding divisor_loop
smallest_divisor word n =
    if n == 0 then none else if ltb n 3 then some n else divisor_loop word n n 2
