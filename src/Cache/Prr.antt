-- ===== src/Cache/Prr.antt =====
-- `prr_cache` of opencog/util/lru_cache.h: a full cache gives up the entry at which the iteration
-- over its `std::unordered_map` begins, `begin`, whichever that is. The cached function is a
-- parameter, `none` where it throws; `none` for a step is `erase(begin())` on an empty map.
pub mod Bounded
pub mod Shrinks
use cogutil.Base.{
  ℕ, zero, suc, ◌+◌, Bool, List, [], ◌∷◌, Option, none, some, if◌then◌else◌, length, is_nil, ltb,
  ◌==◌,
}
use cogutil.Cache.Lru.{Reply, value, raised}
use cogutil.Cache.Lru.Ideal.{lookup, drop_key}

pub record Prr {ℓ} (K V : Type ℓ) : Type ℓ where
  pub capacity : ℕ
  pub map : List (K × V)
  pub hits : ℕ
  pub misses : ℕ

module _ {ℓ} {K V : Type ℓ} where
  unfoldable pub create : ℕ → Prr K V
  create n = record { capacity = n; map = []; hits = 0; misses = 0 }

  unfoldable pub full : Prr K V → Bool
  full c = length c.map == c.capacity

  unfoldable pub empty : Prr K V → Bool
  empty c = is_nil c.map

  unfoldable pub clear : Prr K V → Prr K V
  clear c = record c { map = [] }

  abbrev pub stored : K → V → Prr K V → Prr K V
  stored x v c = record c { map = (x, v) ∷ c.map }

  -- `if_f` has counted the miss.
  abbrev pub missed : Prr K V → Prr K V
  missed c = record c { misses = c.misses + 1 }

module _ {ℓ} {K V : Type ℓ} (dec : Discrete K) (begin : List (K × V) → K) where
  -- `_map.erase(_map.begin())`.
  unfoldable pub erase_begin : Prr K V → Option (Prr K V)
  erase_begin c =
      if is_nil c.map then none else some (record c { map = drop_key dec (begin c.map) c.map })

  abbrev pub then_stored : K → V → Option (Prr K V) → Option (Reply V × Prr K V)
  then_stored x v none = none
  then_stored x v (some c) = some (value v, stored x v c)

  -- The entry goes after the function has returned, and before the result is stored.
  unfoldable pub evaluated : K → Prr K V → Option V → Option (Reply V × Prr K V)
  unfolding full erase_begin
  evaluated x c none = some (raised, c)
  evaluated x c (some v) = then_stored x v (if full c then erase_begin c else some c)

  unfoldable pub answered : (K → Option V) → K → Prr K V → Option V → Option (Reply V × Prr K V)
  unfolding evaluated
  answered f x c none = evaluated x (missed c) (f x)
  answered f x c (some v) = some (value v, record c { hits = c.hits + 1 })

  -- `operator()`.
  unfoldable pub call : (K → Option V) → K → Prr K V → Option (Reply V × Prr K V)
  unfolding answered
  call f x c = answered f x c (lookup dec x c.map)

  unfoldable pub shrink : ℕ → Prr K V → Option (Prr K V)
  unfolding erase_begin
  shrink zero c = some c
  shrink (suc fuel) c =
      if ltb c.capacity (length c.map)
      then elim (erase_begin c) [ none ↦ none | some c' ↦ shrink fuel c' ]
      else some c

  -- Each round takes one entry, so the size is fuel enough.
  unfoldable pub resize : ℕ → Prr K V → Option (Prr K V)
  unfolding shrink
  resize n c = shrink (length c.map) (record c { capacity = n })
