-- ===== src/Cache/Prr/Shrinks.antt =====
-- What the erasures of opencog/util/lru_cache.h's prr_cache leave of its size.
use cogutil.Base.{
  ℕ, zero, suc, ◌<◌, ◌≤◌, true, List, [], ◌∷◌, Option, none, some, ◌≡◌, refl, ◌∙◌, ltb, is_nil,
  length, inl, inr, Bool-cases, arith,
}
use mathlib.Core.Logic.{if_pos, if_neg}
use cogutil.Cache.Lru.Ideal.{drop_key}
use cogutil.Cache.Prr.{Prr, erase_begin, shrink}

module _ {ℓ} {K V : Type ℓ} (dec : Discrete K) (begin : List (K × V) → K) where
  length-drop_key : (x : K) (m : List (K × V)) → length m ≤ suc (length (drop_key dec x m))
  unfolding drop_key
  length-drop_key x [] = omega arith
  length-drop_key x ((j, w) ∷ m) = elim (dec j x) [
    | yes p ↦ rw (if_pos _ p) (omega arith)
    | no p ↦ rw (if_neg _ p) (omega (arith, length-drop_key x m))
  ]

  abbrev pub Erases : Prr K V → Option (Prr K V) → Type 0
  Erases c none = length c.map ≡ 0
  Erases c (some c') = (c'.capacity ≡ c.capacity) × (length c.map ≤ suc (length c'.map))

  is_nil-length : (m : List (K × V)) → is_nil m ≡ true → length m ≡ 0
  is_nil-length [] e = refl
  is_nil-length (x ∷ m) e = cc

  pub erase_begin-Erases : (c : Prr K V) → Erases c (erase_begin dec begin c)
  unfolding erase_begin
  erase_begin-Erases c = elim (Bool-cases (is_nil c.map)) [
    | inl nothing ↦ rw nothing (is_nil-length c.map nothing)
    | inr some_there ↦ rw some_there (refl, length-drop_key (begin c.map) c.map)
  ]

  -- A cache with room for an entry keeps one.
  abbrev pub Shrinks : Prr K V → Option (Prr K V) → Type 0
  Shrinks c none = Unit
  Shrinks c (some c') =
      (c'.capacity ≡ c.capacity) × (0 < c.capacity → 0 < length c.map → 0 < length c'.map)

  Shrinks-after :
      (c c' : Prr K V) (o : Option (Prr K V))
      → c.capacity < length c.map
      → Erases c (some c')
      → Shrinks c' o
      → Shrinks c o
  Shrinks-after c c' none over e h = tt
  Shrinks-after c c' (some c'') over (same, most) (same', keeps) = (
    same' ∙ same,
    λ room there. keeps (omega (arith, same, room)) (omega (arith, most, over, room)),
  )

  shrink-next :
      (fuel : ℕ) (c : Prr K V) (o : Option (Prr K V))
      → ((c' : Prr K V) → Shrinks c' (shrink dec begin fuel c'))
      → c.capacity < length c.map
      → Erases c o
      → Shrinks c (elim o [ none ↦ none | some c' ↦ shrink dec begin fuel c' ])
  shrink-next fuel c none next over e = tt
  shrink-next fuel c (some c') next over e =
      Shrinks-after c c' (shrink dec begin fuel c') over e (next c')

  pub shrink-Shrinks : (fuel : ℕ) (c : Prr K V) → Shrinks c (shrink dec begin fuel c)
  unfolding shrink
  shrink-Shrinks zero c = (refl, λ room there. there)
  shrink-Shrinks (suc fuel) c = elim (Bool-cases (ltb c.capacity (length c.map))) [
    | inl over ↦ rw over (
        shrink-next fuel c (erase_begin dec begin c) (shrink-Shrinks fuel) (ground arith)
          (erase_begin-Erases c))
    | inr fits ↦ rw fits (refl, λ room there. there)
  ]
