-- ===== src/Cache/Lru/Ideal.antt =====
-- The specification of `lru_cache`: a list of arguments and results, the most recently used first.
use cogutil.Base.{
  ℕ, suc, List, [], ◌∷◌, Option, none, some, ◌≡◌, refl, arith, length, if◌then◌else◌, ap, ltb,
}
use mathlib.Core.Logic.{ite}
use cogutil.Cache.Entries.{Entry, contents, find, erase, drop_last}
use cogutil.Cache.Lru.{Reply, value, raised}

module _ {ℓ} {K V : Type ℓ} where
  abbrev pub missed : ℕ → K → List (K × V) → Option V → Reply V × List (K × V)
  missed n k a none = (raised, a)
  missed n k a (some v) =
      (value v, if ltb n (suc (length a)) then drop_last ((k, v) ∷ a) else (k, v) ∷ a)

-- The specification: what a cache of a given size does to the list of what it holds.
module _ {ℓ} {K V : Type ℓ} (dec : Discrete K) where
  unfoldable pub lookup : K → List (K × V) → Option V
  lookup k [] = none
  lookup k ((j, v) ∷ a) = ite (dec j k) (some v) (lookup k a)

  unfoldable pub drop_key : K → List (K × V) → List (K × V)
  drop_key k [] = []
  drop_key k ((j, v) ∷ a) = ite (dec j k) a ((j, v) ∷ drop_key k a)

  -- A hit moves to the front; a miss is put in front, and what is beyond the size falls off the
  -- end; a throw changes nothing.
  unfoldable pub ideal : ℕ → (K → Option V) → K → List (K × V) → Reply V × List (K × V)
  ideal n f k a = elim (lookup k a) [
    | none ↦ missed n k a (f k)
    | some v ↦ (value v, (k, v) ∷ drop_key k a)
  ]

  pub find-lookup :
      (k : K) (es : List (Entry K V)) (e : Entry K V)
      → find dec k es ≡ some e
      → lookup k (contents es) ≡ some e.1
  unfolding find lookup
  find-lookup k [] e h = cc
  find-lookup k (x ∷ es) e h = ground (arith, find-lookup k es e)

  pub find-lookup-none :
      (k : K) (es : List (Entry K V)) → find dec k es ≡ none → lookup k (contents es) ≡ none
  unfolding find lookup
  find-lookup-none k [] h = refl
  find-lookup-none k (x ∷ es) h = ground (arith, find-lookup-none k es)

  pub contents-erase :
      (k : K) (es : List (Entry K V)) → contents (erase dec k es) ≡ drop_key k (contents es)
  unfolding erase drop_key
  contents-erase k [] = refl
  contents-erase k (x ∷ es) = ground (arith, contents-erase k es)

module _ {ℓ} {K V : Type ℓ} where
  pub contents-drop_last :
      (es : List (Entry K V)) → contents (drop_last es) ≡ drop_last (contents es)
  unfolding drop_last
  contents-drop_last [] = refl
  contents-drop_last (x ∷ []) = refl
  contents-drop_last (x ∷ y ∷ es) = ap (◌∷◌ (x.0.key, x.1)) (contents-drop_last (y ∷ es))

  pub length-contents : (es : List (Entry K V)) → length (contents es) ≡ length es
  length-contents [] = refl
  length-contents (x ∷ es) = ap suc (length-contents es)
